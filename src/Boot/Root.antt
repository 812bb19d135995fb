-- ===== src/Boot/Root.antt =====
-- The root file system and the mount of /tmp that src/kernel/core/boot.c makes.
use sometuffcoolpr.Prelude.{ℕ, ◌≡◌, ◌≢◌, refl, sym, some, [], ◌∷◌, arith, ==_ne, ==_self}
use sometuffcoolpr.Prelude.Int.{pos}
use sometuffcoolpr.Prelude.Text.{codes}
use sometuffcoolpr.Heap.{Heap}
use sometuffcoolpr.Fs.{ok, deref, Fs, Node, put, vfs_dir}
use sometuffcoolpr.Fs.Ramfs.{new_node, create, create_instance, lookup, find_child}
use sometuffcoolpr.Prelude.Pieces.{pieces}
use sometuffcoolpr.Str.Compare.{strcmp_self}
use sometuffcoolpr.Fs.Path.{vfs_lookup, vfs_mount, lookup_part}
use sometuffcoolpr.Fs.Path.Mount.{vfs_mount-lookup}
use sometuffcoolpr.Fs.Path.Walk.{parts}
use sometuffcoolpr.Machine.{Machine, World}
use sometuffcoolpr.Shell.Commands.Storage.{with_object}
use sometuffcoolpr.Shell.Commands.Places.{Places, alloc_object-Places}
use sometuffcoolpr.Shell.Commands.Files.{node_size, create_on}
use sometuffcoolpr.Boot.{instance_on, start_root, mount_tmp}

one : parts (codes "/tmp") ≡ codes "tmp" ∷ []
unfolding parts pieces
one = refl

module _ (root node tmp : ℕ) (some_root : root ≢ 0) (some_node : node ≢ 0) (some_tmp : tmp ≢ 0)
    (root_node : root ≢ node) (root_tmp : root ≢ tmp) (node_tmp : node ≢ tmp) (fs : Fs) where
  abbrev root_dir : Node
  root_dir = new_node (codes "/") vfs_dir 0

  abbrev pub with_root : Fs
  with_root = record (put (with_object root node_size fs) root root_dir) { root = root }

  abbrev with_dir : Fs
  with_dir =
      put (put (with_object node node_size with_root) node (new_node (codes "tmp") vfs_dir root))
        root (record root_dir { children = node ∷ [] })

  abbrev with_tmp : Fs
  with_tmp = put (with_object tmp node_size with_dir) tmp (new_node (codes "/") vfs_dir 0)

  root_stored : deref with_root root ≡ ok root_dir
  root_stored = rw (deref, ==_self root) refl

  dir_created :
      create node (with_object node node_size with_root) root (codes "tmp") vfs_dir
      ≡ ok (pos 0, with_dir)
  unfolding create
  dir_created = rw (==_ne root 0 some_root, root_stored) (rw (==_ne node 0 some_node) refl)

  root_kept : deref with_tmp root ≡ ok (record root_dir { children = node ∷ [] })
  root_kept = rw (deref, ==_ne root tmp root_tmp) (rw (==_self root) refl)

  dir_kept : with_tmp.nodes node ≡ some (new_node (codes "tmp") vfs_dir root)
  dir_kept =
      rw (==_ne node tmp node_tmp)
        (rw (==_ne node root (λ e. root_node (sym e))) (rw (==_self node) refl))

  dir_found : lookup_part with_tmp root (codes "tmp") ≡ ok node
  unfolding lookup_part lookup find_child
  dir_found = rw root_kept (
      rw (==_ne root 0 some_root) (rw (find_child, dir_kept) (rw (strcmp_self (codes "tmp")) refl)))

  -- The mount on the directory.
  mounted_tmp :
      fs.mounts ≡ []
      → (fs' : Fs) × (vfs_mount with_tmp (codes "/tmp") tmp ≡ ok fs')
        × (vfs_lookup fs' (codes "/tmp") ≡ ok tmp)
  mounted_tmp empty =
      vfs_mount-lookup with_tmp (codes "/tmp") (codes "tmp") node tmp some_root one dir_found
        some_node (rw empty tt) (rw empty (omega arith))

  -- The steps of the boot, with the heap giving the three nodes.
  module _ (w : World) (m : Machine) (h1 : Heap) (fs_is : m.fs ≡ fs)
      (first : Places w m.heap m.fs.objects node_size root h1) where
    pub started_root : start_root w m ≡ ok (record m { heap = h1; fs = with_root })
    unfolding start_root instance_on create_instance
    started_root =
        rw (alloc_object-Places w m node_size root h1 first, ==_ne root 0 some_root, fs_is) refl

  module _ (w : World) (m : Machine) (h1 h2 h3 : Heap)
      (second : Places w h1 with_root.objects node_size node h2)
      (third : Places w h2 with_dir.objects node_size tmp h3) where
    abbrev at_root : Machine
    at_root = record m { heap = h1; fs = with_root }

    abbrev at_dir : Machine
    at_dir = record m { heap = h2; fs = with_dir }

    made_dir : create_on root (codes "tmp") vfs_dir w at_root ≡ ok (pos 0, at_dir)
    unfolding create_on
    made_dir =
        rw root_stored
          (rw (alloc_object-Places w at_root node_size node h2 second) (rw dir_created refl))

    made_tmp : instance_on w at_dir ≡ ok (tmp, record m { heap = h3; fs = with_tmp })
    unfolding instance_on create_instance
    made_tmp = rw (alloc_object-Places w at_dir node_size tmp h3 third, ==_ne tmp 0 some_tmp) refl

    pub tmp_mounted :
        fs.mounts ≡ []
        → (fs' : Fs) × (mount_tmp w at_root ≡ ok (record m { heap = h3; fs = fs' }))
          × (vfs_lookup fs' (codes "/tmp") ≡ ok tmp)
    unfolding mount_tmp
    tmp_mounted empty =
        let (fs', e, found) = mounted_tmp empty in
        (fs', rw made_dir (rw made_tmp (rw e refl)), found)
