-- ===== src/Fs/Ramfs.antt =====
-- src/kernel/fs/ramfs/ramfs.c.
pub mod Content
pub mod Directory
pub mod Ops
use mathlib.Core.Bool.{◌||◌, ◌&&◌}
use sometuffcoolpr.Prelude.{
  ℕ, zero, suc, ◌+◌, ◌-◌, ◌/◌, ◌%◌, ◌^◌, Option, none, some, List, [], ◌∷◌, ◌++◌, ltb, leb, ◌==◌,
  if◌then◌else◌, length,
}
use sometuffcoolpr.Prelude.Int.{ℤ, pos, negsuc}
use sometuffcoolpr.Prelude.Memory.{Memory}
use sometuffcoolpr.Str.{CString, strcmp}
use sometuffcoolpr.Fs.{
  Result, ok, fault, panic, out_of_fuel, ◌>>=◌, Node, Fs, put, deref, splice, u32, is_dir, vfs_dir,
}

-- `strcmp(…) == 0`
abbrev pub is_zero : ℤ → ℕ
is_zero (pos zero) = 1
is_zero _ = 0

-- The loop of `ramfs_lookup` over the children; 0 is NULL.
unfoldable pub find_child : Fs → CString → List ℕ → Result ℕ
find_child fs name [] = ok 0
find_child fs name (c ∷ cs) = elim (fs.nodes c) [
  | none ↦ fault
  | some n ↦
      let rest = find_child fs name cs in if is_zero (strcmp n.name name) == 1 then ok c else rest
]

unfoldable pub lookup : Fs → ℕ → CString → Result ℕ
lookup fs node name =
    if node == 0 then panic else deref fs node >>= λ r. find_child fs name r.children

-- A node after `memset`; `children` is the array up to `child_count`.
abbrev pub new_node : CString → ℕ → ℕ → Node
new_node name flags parent = record {
  name = name;
  flags = flags;
  parent = parent;
  content = λ a. 0;
  size = 0;
  capacity = 0;
  children = [];
}

-- `fresh` is what `kmalloc` returns; it is not tested for NULL. The name goes to a field of 64
-- bytes by `strcpy`.
unfoldable pub create : (fresh : ℕ) → Fs → ℕ → CString → ℕ → Result (ℤ × Fs)
create fresh fs parent name flags =
    if parent == 0
    then panic
    else deref fs parent >>= λ p.
        if leb 32 (length p.children)
        then ok (negsuc 0, fs)
        else if fresh == 0 || leb 64 (length name)
        then fault
        else ok (
          pos 0,
          put (put fs fresh (new_node name flags parent)) parent
              (record p { children = p.children ++ (fresh ∷ []) }),
        )

-- `ramfs_create_instance`: a root directory of its own.
unfoldable pub create_instance : (fresh : ℕ) → Fs → Result (ℕ × Fs)
create_instance fresh fs =
    if fresh == 0 then fault else ok (fresh, put fs fresh (new_node (b'/' ∷ []) vfs_dir 0))

-- `ramfs_init`: the root directory of the virtual file system.
unfoldable pub ramfs_init : (fresh : ℕ) → Fs → Result Fs
ramfs_init fresh fs =
    if fresh == 0
    then fault
    else ok (record (put fs fresh (new_node (b'/' ∷ []) vfs_dir 0)) { root = fresh })

-- The file behind the growth of its buffer; `garbage` is what the fresh memory holds.
unfoldable pub reserve : (garbage : Memory) → ℕ → Node → Node
reserve garbage new_capacity r =
    if ltb r.capacity new_capacity
    then record r { content = splice garbage 0 r.content r.size; capacity = new_capacity }
    else r

-- `return size` as an `int`.
abbrev pub int_of : ℕ → ℤ
int_of size = if ltb size (2 ^ 31) then pos size else negsuc (2 ^ 32 - size - 1)

-- `fresh` is what `kmalloc` returns, used when the buffer grows. A copy that does not fit the
-- buffer is a fault: `offset + size` wraps.
unfoldable pub write_node :
    (fresh : ℕ) (garbage : Memory) → Node → (offset size : ℕ) → Memory → Result (ℤ × Node)
write_node fresh garbage r offset size buffer =
    if is_dir r.flags
    then ok (negsuc 0, r)
    else let end : ℕ = u32 (offset + size) in
      let r' = reserve garbage end r in
      if (ltb r.capacity end && (fresh == 0)) || ltb r'.capacity (offset + size)
      then fault
      else ok (
        int_of size,
        record r' {
          content = splice r'.content offset buffer size;
          size = if ltb r'.size end then end else r'.size;
        },
      )

unfoldable pub write :
    (fresh : ℕ) (garbage : Memory) → Fs → ℕ → (offset size : ℕ) → Memory → Result (ℤ × Fs)
write fresh garbage fs node offset size buffer =
    if node == 0
    then panic
    else deref fs node >>= λ r.
        write_node fresh garbage r offset size buffer >>= λ (n, r'). ok (n, put fs node r')

-- The count and the buffer that was read into.
unfoldable pub read_node : Node → (offset size : ℕ) → Memory → Result (ℤ × Memory)
read_node r offset size buffer =
    if leb r.size offset
    then ok (pos 0, buffer)
    else let n : ℕ = if ltb r.size (u32 (offset + size)) then r.size - offset else size in
      if ltb r.capacity (offset + n)
      then fault
      else ok (int_of n, splice buffer 0 (λ a. r.content (offset + a)) n)

unfoldable pub read : Fs → ℕ → (offset size : ℕ) → Memory → Result (ℤ × Memory)
read fs node offset size buffer = deref fs node >>= λ r. read_node r offset size buffer

-- What `ramfs_list` prints: the names, one to a line.
unfoldable pub names : Fs → List ℕ → Result CString
names fs [] = ok []
names fs (c ∷ cs) = deref fs c >>= λ n. names fs cs >>= λ rest. ok (n.name ++ (10 ∷ rest))

unfoldable pub list : Fs → ℕ → Result CString
list fs node = deref fs node >>= λ r. names fs r.children
