-- ===== src/Fs/Tests.antt =====
-- A file system with a directory and a file, for src/kernel/fs.
use sometuffcoolpr.Prelude.{◌+◌, ◌≡◌, ◌≢◌, refl, none, some, [], ◌∷◌, arith, ◌==◌, if◌then◌else◌}
use sometuffcoolpr.Prelude.Int.{pos}
use sometuffcoolpr.Prelude.Memory.{Memory}
use sometuffcoolpr.Prelude.Text.{codes}
use sometuffcoolpr.Prelude.Pieces.{pieces}
use sometuffcoolpr.Str.{CString, strcmp}
use sometuffcoolpr.Fs.{ok, Node, Fs}
use sometuffcoolpr.Fs.Ramfs.{new_node, create, lookup, find_child}
use sometuffcoolpr.Fs.Ramfs.Directory.{create-lookup}
use sometuffcoolpr.Fs.Path.{path_resolve, vfs_mount, vfs_lookup, lookup_part}
use sometuffcoolpr.Fs.Path.Walk.{parts, walk, path_resolve-walk}
use sometuffcoolpr.Fs.Path.Mount.{vfs_mount-lookup}
use sometuffcoolpr.Fs.Fd.{Table, fd_alloc}
use sometuffcoolpr.Fs.Fd.Table.{Lowest, fd_alloc-Lowest}

-- A file of four bytes.
abbrev file : Node
file = record {
  name = codes "f";
  flags = 1;
  parent = 100;
  content = λ a. 65 + a;
  size = 4;
  capacity = 4;
  children = [];
}

abbrev directory : Node
directory = record (new_node (codes "/") 2 0) { children = 200 ∷ [] }

abbrev tree : Fs
tree = record {
  nodes = λ a. if a == 100 then some directory else if a == 200 then some file else none;
  mounts = [];
  root = 100;
  objects = [];
}

no_g : lookup tree 100 (codes "g") ≡ ok 0
unfolding lookup find_child strcmp
no_g = refl

create-lookup_example :
    (fs' : Fs) × (create 300 tree 100 (codes "g") 1 ≡ ok (pos 0, fs'))
    × (lookup fs' 100 (codes "g") ≡ ok 300)
    × ((other : CString)
        → strcmp (codes "g") other ≢ pos 0
        → lookup fs' 100 other ≡ lookup tree 100 other)
create-lookup_example =
    create-lookup 300 tree 100 directory (codes "g") 1 (λ e. absurd (omega arith))
      (λ e. absurd (omega arith)) (λ e. absurd (omega arith)) refl
      ((λ e. absurd (omega arith)), (λ e. absurd (omega arith)), tt) (omega arith) (omega arith)
      no_g

path_resolve-walk_example :
    path_resolve 5 tree 100 (codes "//f/") ≡ walk tree 100 (parts (codes "//f/"))
path_resolve-walk_example = path_resolve-walk 5 tree 100 (codes "//f/") (omega arith)

one_part : parts (codes "/f") ≡ codes "f" ∷ []
unfolding parts pieces
one_part = refl

found : lookup_part tree 100 (codes "f") ≡ ok 200
unfolding lookup_part find_child strcmp
found = refl

vfs_mount-lookup_example :
    (fs' : Fs) × (vfs_mount tree (codes "/f") 100 ≡ ok fs') × (vfs_lookup fs' (codes "/f") ≡ ok 100)
vfs_mount-lookup_example =
    vfs_mount-lookup tree (codes "/f") (codes "f") 200 100 (λ e. absurd (omega arith)) one_part
      found (λ e. absurd (omega arith)) tt (omega arith)

-- The descriptor 3 is open on the file.
abbrev table : Table
table d = record { used = d == 3; node = 200; offset = 2 }

fd_alloc-Lowest_example : Lowest table 32 0 (fd_alloc table)
fd_alloc-Lowest_example = fd_alloc-Lowest table
