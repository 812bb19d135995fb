-- ===== src/Fs/Path.antt =====
-- src/kernel/fs/vfs/path.c and src/kernel/fs/vfs/vfs.c.
pub mod Walk
pub mod Mount
pub mod Shape
use sometuffcoolpr.Prelude.{
  ℕ, zero, suc, Option, none, some, List, [], ◌∷◌, ◌++◌, leb, ◌==◌, if◌then◌else◌, length,
}
use sometuffcoolpr.Prelude.Pieces.{skip, piece, behind}
use sometuffcoolpr.Str.{CString}
use sometuffcoolpr.Fs.{Result, ok, fault, panic, out_of_fuel, ◌>>=◌, Fs, deref}
use sometuffcoolpr.Fs.Ramfs.{lookup}

abbrev pub slash : ℕ
slash = b'/'

-- `while (*path == '/') path++;`
unfoldable pub skip_slashes : CString → CString
skip_slashes path = skip slash path

-- What the loop `while (*path && *path != '/')` copies to `part`, and the path behind it.
unfoldable pub part_of : CString → CString
part_of path = piece slash path

unfoldable pub behind_part : CString → CString
behind_part path = behind slash path

-- The mount on a node, the first of its entries, or the node.
unfoldable pub mounted : List (ℕ × ℕ) → ℕ → ℕ
mounted [] node = node
mounted ((mountpoint, root) ∷ mounts) node =
    if node == mountpoint then root else mounted mounts node

unfoldable pub check_mount : Fs → ℕ → ℕ
unfolding mounted
check_mount fs node = mounted fs.mounts node

-- The lookup of one part from `current`; `part[64]` holds 63 characters and the NUL.
unfoldable pub lookup_part : Fs → ℕ → CString → Result ℕ
unfolding lookup
lookup_part fs current part =
    if leb 64 (length part) then fault else deref fs current >>= λ r. lookup fs current part

unfoldable pub path_resolve : ℕ → Fs → ℕ → CString → Result ℕ
unfolding skip_slashes part_of behind_part lookup_part check_mount
path_resolve zero fs current path = out_of_fuel
path_resolve (suc fuel) fs current [] = ok current
path_resolve (suc fuel) fs current (c ∷ path) = elim (skip_slashes (c ∷ path)) [
  | [] ↦ ok current
  | d ∷ ds ↦ lookup_part fs current (part_of (d ∷ ds)) >>= λ next.
      if next == 0 then ok 0 else path_resolve fuel fs (check_mount fs next) (behind_part (d ∷ ds))
]

unfoldable pub vfs_lookup : Fs → CString → Result ℕ
unfolding path_resolve
vfs_lookup fs path = if fs.root == 0 then ok 0 else path_resolve (suc (length path)) fs fs.root path

-- `mounts` has 8 entries, and the count is not tested.
unfoldable pub vfs_mount : Fs → CString → ℕ → Result Fs
unfolding vfs_lookup
vfs_mount fs path fs_root = vfs_lookup fs path >>= λ mountpoint.
    if mountpoint == 0
    then panic
    else if leb 8 (length fs.mounts)
    then fault
    else ok (record fs { mounts = fs.mounts ++ ((mountpoint, fs_root) ∷ []) })
