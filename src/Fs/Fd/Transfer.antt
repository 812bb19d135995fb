-- ===== src/Fs/Fd/Transfer.antt =====
-- Reading and writing through a descriptor.
use sometuffcoolpr.Prelude.{ℕ, ◌<◌, ◌≡◌, ◌≢◌, refl, some, true, arith, ==_ne}
use sometuffcoolpr.Prelude.Int.{ℤ, pos}
use sometuffcoolpr.Prelude.Memory.{Memory}
use sometuffcoolpr.Fs.{ok, ◌>>=◌, Node, Fs, put, deref}
use sometuffcoolpr.Fs.Ramfs.{write_node, read_node, write, read}
use sometuffcoolpr.Fs.Fd.{Table, max_fds, is_open, move_offset, sys_write, sys_read}

-- The descriptor `d` is open on the file `r` at `offset`.
pub record OpenOn (fs : Fs) (t : Table) (d : ℕ) (offset : ℕ) (r : Node) : Type 0 where
  pub index : d < max_fds
  pub used : (t d).used ≡ true
  pub at : (t d).offset ≡ offset
  pub node : (t d).node ≢ 0
  pub stored : fs.nodes (t d).node ≡ some r

pub opened :
    (fs : Fs) (t : Table) (d offset : ℕ) (r : Node)
    → OpenOn fs t d offset r
    → is_open t (pos d) ≡ true
unfolding is_open
opened fs t d offset r o = ground (arith, o.index, o.used)

write-ok :
    (fresh : ℕ) (garbage : Memory) (fs : Fs) (p offset size : ℕ) (r r' : Node) (n : ℤ)
    (buffer : Memory)
    → p ≢ 0
    → fs.nodes p ≡ some r
    → write_node fresh garbage r offset size buffer ≡ ok (n, r')
    → write fresh garbage fs p offset size buffer ≡ ok (n, put fs p r')
unfolding write
write-ok fresh garbage fs p offset size r r' n buffer some_node stored e =
    rw (==_ne p 0 some_node, stored, deref) (rw (e, ◌>>=◌) refl)

read-ok :
    (fs : Fs) (p offset size : ℕ) (r : Node) (n : ℤ) (into got : Memory)
    → fs.nodes p ≡ some r
    → read_node r offset size into ≡ ok (n, got)
    → read fs p offset size into ≡ ok (n, got)
unfolding read
read-ok fs p offset size r n into got stored e = rw (stored, deref) e

pub sys_write-ok :
    (fresh : ℕ) (garbage : Memory) (fs : Fs) (t : Table) (d offset size : ℕ) (r r' : Node) (n : ℤ)
    (buffer : Memory)
    → OpenOn fs t d offset r
    → write_node fresh garbage r offset size buffer ≡ ok (n, r')
    → sys_write fresh garbage fs t (pos d) buffer size
      ≡ ok (n, put fs (t d).node r', move_offset t d n)
unfolding sys_write
sys_write-ok fresh garbage fs t d offset size r r' n buffer o e =
    rw
      (
        opened fs t d offset r o,
        o.at,
        write-ok fresh garbage fs (t d).node offset size r r' n buffer o.node o.stored e,
      )
      (rw (o.stored, deref) refl)

pub sys_read-ok :
    (fs : Fs) (t : Table) (d offset size : ℕ) (r : Node) (n : ℤ) (into got : Memory)
    → OpenOn fs t d offset r
    → read_node r offset size into ≡ ok (n, got)
    → sys_read fs t (pos d) into size ≡ ok (n, move_offset t d n, got)
unfolding sys_read
sys_read-ok fs t d offset size r n into got o e =
    rw (opened fs t d offset r o, o.at, read-ok fs (t d).node offset size r n into got o.stored e)
      refl
