-- ===== src/Fs/Ramfs/Ops.antt =====
-- The table of operations of src/kernel/fs/ramfs/ramfs.c, with the type of vfs.h.
use sometuffcoolpr.Prelude.{◌≡◌, refl, Bool, true, false, Option, none, some, if◌then◌else◌, arith}

-- The functions whose addresses are taken.
pub data Operation : Type 0 where
  ramfs_lookup ramfs_create ramfs_read ramfs_write ramfs_list : Operation

-- `vfs_ops_t`; a pointer is `none` for NULL.
pub record Ops : Type 0 where
  pub lookup : Option Operation
  pub create : Option Operation
  pub read : Option Operation
  pub write : Option Operation
  pub list : Option Operation

-- `ramfs_ops` and `ramfs_initialized`.
pub record OpsTable : Type 0 where
  pub ops : Ops
  pub initialized : Bool

-- Both as the kernel starts.
abbrev pub no_ops : OpsTable
no_ops = record {
  ops = record { lookup = none; create = none; read = none; write = none; list = none };
  initialized = false;
}

pub ramfs_init_ops : OpsTable → OpsTable
ramfs_init_ops t = if t.initialized then t else record {
  ops = record {
    lookup = some ramfs_lookup;
    create = some ramfs_create;
    read = some ramfs_read;
    write = some ramfs_write;
    list = some ramfs_list;
  };
  initialized = true;
}

-- Every slot points at the function of its name.
abbrev IsFilled : OpsTable → Type 0
IsFilled t =
    (t.ops.lookup ≡ some ramfs_lookup)
    × (t.ops.create ≡ some ramfs_create)
    × (t.ops.read ≡ some ramfs_read)
    × (t.ops.write ≡ some ramfs_write)
    × (t.ops.list ≡ some ramfs_list)

-- The first call fills the table, and a further one leaves it as it is.
pub ramfs_init_ops-IsFilled :
    IsFilled (ramfs_init_ops no_ops)
    × ((t : OpsTable) → ramfs_init_ops (ramfs_init_ops t) ≡ ramfs_init_ops t)
unfolding ramfs_init_ops
ramfs_init_ops-IsFilled = ((refl, refl, refl, refl, refl), λ t. ground arith)
