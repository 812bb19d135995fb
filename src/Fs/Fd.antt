-- ===== src/Fs/Fd.antt =====
-- src/kernel/fs/fd/fd.c. Every node's `ops` are those of the RAM file system; they are read from the
-- node before the call.
pub mod Table
pub mod Transfer
pub mod Open
use sometuffcoolpr.Prelude.{
  ℕ, zero, suc, ◌+◌, ◌<◌, Bool, true, false, ◌&&◌, not, ltb, ◌==◌, if◌then◌else◌,
}
use sometuffcoolpr.Prelude.Int.{ℤ, pos, negsuc}
use sometuffcoolpr.Prelude.Memory.{Memory}
use sometuffcoolpr.Str.{CString}
use sometuffcoolpr.Fs.{Result, ok, ◌>>=◌, Fs, u32, deref}
use sometuffcoolpr.Fs.Ramfs.{write, read}
use sometuffcoolpr.Fs.Path.{vfs_lookup}

-- `file_desc_t`
pub record Desc : Type 0 where
  pub used : Bool
  pub node : ℕ
  pub offset : ℕ

-- `fd_table`, at the indices below 32.
abbrev pub Table : Type 0
Table = ℕ → Desc

abbrev pub max_fds : ℕ
max_fds = 32

abbrev pub put_desc : Table → ℕ → Desc → Table
put_desc t i d j = if j == i then d else t j

-- The `n` turns of the loop from `i`.
unfoldable pub fd_init_from : (n i : ℕ) → Table → Table
fd_init_from zero i t = t
fd_init_from (suc n) i t = fd_init_from n (i + 1) (put_desc t i (record (t i) { used = false }))

unfoldable pub fd_init : Table → Table
unfolding fd_init_from
fd_init t = fd_init_from max_fds 0 t

unfoldable pub fd_alloc_from : (n i : ℕ) → Table → ℤ × Table
fd_alloc_from zero i t = (negsuc 0, t)
fd_alloc_from (suc n) i t =
    let rest = fd_alloc_from n (i + 1) t in
    if not (t i).used
    then (pos i, put_desc t i (record (t i) { used = true; offset = 0 }))
    else rest

unfoldable pub fd_alloc : Table → ℤ × Table
unfolding fd_alloc_from
fd_alloc t = fd_alloc_from max_fds 0 t

-- `fd_table[fd].node = node` behind `fd < 0`.
unfoldable pub set_node : ℤ × Table → ℕ → ℤ × Table
set_node (negsuc n, t) node = (negsuc 0, t)
set_node (pos i, t) node = (pos i, put_desc t i (record (t i) { node = node }))

unfoldable pub sys_open : Fs → Table → CString → Result (ℤ × Table)
unfolding fd_alloc set_node
sys_open fs t path = vfs_lookup fs path >>= λ node.
    if node == 0 then ok (negsuc 0, t) else ok (set_node (fd_alloc t) node)

-- `fd >= 0 && fd < MAX_FDS && fd_table[fd].used`
unfoldable pub is_open : Table → ℤ → Bool
is_open t (negsuc n) = false
is_open t (pos i) = ltb i max_fds && (t i).used

abbrev pub index : ℤ → ℕ
index (pos i) = i
index (negsuc n) = 0

-- `if (written > 0) desc->offset += written;`
unfoldable pub move_offset : Table → ℕ → ℤ → Table
move_offset t i (negsuc n) = t
move_offset t i (pos n) = put_desc t i (record (t i) { offset = u32 ((t i).offset + n) })

unfoldable pub sys_write :
    (fresh : ℕ) (garbage : Memory) → Fs → Table → ℤ → Memory → ℕ → Result (ℤ × Fs × Table)
unfolding write is_open move_offset
sys_write fresh garbage fs t fd buffer size =
    if is_open t fd
    then (deref fs (t (index fd)).node >>= λ r.
        write fresh garbage fs (t (index fd)).node (t (index fd)).offset size buffer >>= λ (n, fs').
        ok (n, fs', move_offset t (index fd) n))
    else ok (negsuc 0, fs, t)

-- The count, the table, and the memory that was read into.
unfoldable pub sys_read : Fs → Table → ℤ → Memory → ℕ → Result (ℤ × Table × Memory)
unfolding read is_open move_offset
sys_read fs t fd buffer size =
    if is_open t fd
    then (read fs (t (index fd)).node (t (index fd)).offset size buffer >>= λ (n, got).
        ok (n, move_offset t (index fd) n, got))
    else ok (negsuc 0, t, buffer)

unfoldable pub sys_close : Table → ℤ → Table
sys_close t (negsuc n) = t
sys_close t (pos i) = if ltb i max_fds then put_desc t i (record (t i) { used = false }) else t

unfoldable pub sys_seek : Table → ℤ → ℕ → ℤ × Table
unfolding is_open
sys_seek t fd offset =
    if is_open t fd
    then (pos 0, put_desc t (index fd) (record (t (index fd)) { offset = offset }))
    else (negsuc 0, t)
