-- ===== src/Fs/Path/Mount.antt =====
-- What `vfs_mount` does to lookups.
use sometuffcoolpr.Prelude.{
  ℕ, none, some, fun_ext, ◌<◌, ◌≡◌, ◌≢◌, refl, ◌∙◌, ap, List, [], ◌∷◌, ◌++◌, arith, leb, ◌==◌,
  if◌then◌else◌, length, false, ==_ne, suc,
}
use sometuffcoolpr.Str.{CString, strcmp}
use sometuffcoolpr.Fs.{Result, ok, fault, panic, ◌>>=◌, Fs, deref}
use sometuffcoolpr.Fs.Ramfs.{lookup, find_child, is_zero}
use sometuffcoolpr.Fs.Path.{mounted, check_mount, lookup_part, vfs_lookup, vfs_mount}
use sometuffcoolpr.Fs.Path.Walk.{parts, walk, path_resolve-walk}

-- No node of a mount table is the mount point `node`.
abbrev pub Unmounted : List (ℕ × ℕ) → ℕ → Type 0
Unmounted [] node = Unit {0}
Unmounted ((mountpoint, root) ∷ mounts) node = (node ≢ mountpoint) × Unmounted mounts node

mounted-append :
    (mounts : List (ℕ × ℕ)) (node root : ℕ)
    → Unmounted mounts node
    → mounted (mounts ++ ((node, root) ∷ [])) node ≡ root
unfolding mounted
mounted-append [] node root h = ground arith
mounted-append ((m, r) ∷ mounts) node root h =
    rw (==_ne node m h.0) (mounted-append mounts node root h.1)

pub mounted-Unmounted :
    (mounts : List (ℕ × ℕ)) (node : ℕ) → Unmounted mounts node → mounted mounts node ≡ node
unfolding mounted
mounted-Unmounted [] node h = refl
mounted-Unmounted ((m, r) ∷ mounts) node h =
    rw (==_ne node m h.0) (mounted-Unmounted mounts node h.1)

find_child-mounts :
    (fs : Fs) (mounts : List (ℕ × ℕ)) (name : CString) (children : List ℕ)
    → find_child (record fs { mounts = mounts }) name children ≡ find_child fs name children
unfolding find_child
find_child-mounts fs mounts name [] = refl
find_child-mounts fs mounts name (c ∷ cs) =
    ap
      (λ (rest : Result ℕ). elim (fs.nodes c) as (λ x. Result ℕ) [
        | none ↦ fault
        | some n ↦ if is_zero (strcmp n.name name) == 1 then ok c else rest
      ])
      (find_child-mounts fs mounts name cs)

lookup_part-mounts :
    (fs : Fs) (mounts : List (ℕ × ℕ)) (current : ℕ) (part : CString)
    → lookup_part (record fs { mounts = mounts }) current part ≡ lookup_part fs current part
unfolding lookup_part lookup
lookup_part-mounts fs mounts current part =
    ap
      (λ (find : List ℕ → Result ℕ).
        if leb 64 (length part)
        then fault
        else deref fs current >>= λ r.
            if current == 0 then panic else deref fs current >>= λ r'. find r'.children)
      (fun_ext (find_child-mounts fs mounts part))

-- `vfs_lookup` follows the parts of the path from the root.
pub vfs_lookup-walk :
    (fs : Fs) (path : CString) → fs.root ≢ 0 → vfs_lookup fs path ≡ walk fs fs.root (parts path)
unfolding vfs_lookup
vfs_lookup-walk fs path h =
    rw (==_ne fs.root 0 h) (path_resolve-walk (suc (length path)) fs fs.root path (omega arith))

-- Mounting a file system on a node of the root directory that nothing is mounted on yet, with an
-- entry of the table left, makes its path lead to the root of the mounted file system.
pub vfs_mount-lookup :
    (fs : Fs) (path name : CString) (node fs_root : ℕ)
    → fs.root ≢ 0
    → parts path ≡ name ∷ []
    → lookup_part fs fs.root name ≡ ok node
    → node ≢ 0
    → Unmounted fs.mounts node
    → length fs.mounts < 8
    → (fs' : Fs) × (vfs_mount fs path fs_root ≡ ok fs') × (vfs_lookup fs' path ≡ ok fs_root)
unfolding vfs_mount walk check_mount
vfs_mount-lookup fs path name node fs_root some_root one found some_node unmounted room =
    let before : vfs_lookup fs path ≡ ok (mounted fs.mounts node) =
      vfs_lookup-walk fs path some_root ∙ rw (one, found, ==_ne node 0 some_node) refl in
    let full : leb 8 (length fs.mounts) ≡ false = ground arith in
    let new = record fs { mounts = fs.mounts ++ ((node, fs_root) ∷ []) } in
    (
      new,
      rw (before, mounted-Unmounted fs.mounts node unmounted, ==_ne node 0 some_node, full) refl,
      vfs_lookup-walk new path some_root
          ∙ rw (one, lookup_part-mounts fs new.mounts fs.root name, found, ==_ne node 0 some_node)
              (ap ok (mounted-append fs.mounts node fs_root unmounted)),
    )
