-- ===== src/Fs.antt =====
-- The file system: src/kernel/fs/vfs/vfs.h and the data of fs/ramfs/ramfs.c. Nodes stand at
-- addresses, 0 is NULL. What a call does to memory that it does not own (a NULL dereference, a write
-- behind a buffer) is the result `fault`; a kernel panic is `panic`; `out_of_fuel` is
-- a loop of the model that was given too little fuel. Addresses that `kmalloc`
-- returns are arguments, and so is the garbage that fresh memory holds.
pub mod Ramfs
pub mod Path
pub mod Fd
mod Tests
use sometuffcoolpr.Prelude.{
  ℕ, ◌+◌, ◌-◌, ◌/◌, ◌%◌, ◌^◌, Bool, ◌&&◌, Option, none, some, List, [], ◌∷◌, ltb, leb, ◌==◌,
  if◌then◌else◌,
}
use sometuffcoolpr.Prelude.Memory.{Memory}
use sometuffcoolpr.Str.{CString}

pub data Result {ℓ} (A : Type ℓ) : Type ℓ where
  ok : A → Result A
  fault : Result A
  panic : Result A
  out_of_fuel : Result A

infixl 5 ◌>>=◌
abbrev pub ◌>>=◌ {ℓ κ} : {A : Type ℓ} {B : Type κ} → Result A → (A → Result B) → Result B
ok a >>= f = f a
fault >>= f = fault
panic >>= f = panic
out_of_fuel >>= f = out_of_fuel

abbrev pub vfs_file : ℕ
vfs_file = 1

abbrev pub vfs_dir : ℕ
vfs_dir = 2

-- `flags & VFS_DIR`
abbrev pub is_dir : ℕ → Bool
is_dir flags = flags / 2 % 2 == 1

-- `ramfs_node_t` with its `vfs_node_t`: `fs_private` points at the node itself and `ops` at the one
-- table `ramfs_ops`, so neither is a field. A NULL `content` has capacity 0.
pub record Node : Type 0 where
  pub name : CString
  pub flags : ℕ
  pub parent : ℕ
  pub content : Memory
  pub size : ℕ
  pub capacity : ℕ
  pub children : List ℕ

-- The nodes, the mount table with `mount_count` entries, `vfs_root`, and the pieces of the heap's
-- memory that nodes and buffers were put in, each by its address and its size.
pub record Fs : Type 0 where
  pub nodes : ℕ → Option Node
  pub mounts : List (ℕ × ℕ)
  pub root : ℕ
  pub objects : List (ℕ × ℕ)

abbrev pub put : Fs → ℕ → Node → Fs
put fs p n = record fs { nodes = λ a. if a == p then some n else fs.nodes a }

-- The same with other pieces of memory in use.
abbrev pub put_with : List (ℕ × ℕ) → Fs → ℕ → Node → Fs
put_with objects fs p n = record (put fs p n) { objects = objects }

-- `*p`
abbrev pub deref : Fs → ℕ → Result Node
deref fs p = elim (fs.nodes p) [ none ↦ fault | some n ↦ ok n ]

-- `memcpy(dst + off, src, n)` between different objects.
abbrev pub splice : Memory → ℕ → Memory → ℕ → Memory
splice dst off src n a = if leb off a && ltb a (off + n) then src (a - off) else dst a

abbrev pub u32 : ℕ → ℕ
u32 n = n % 2 ^ 32
