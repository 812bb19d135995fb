-- ===== src/Shell/Commands/Made.antt =====
-- `mk` of src/kernel/shell/shell.c, and `write` and `rd` of the file it makes.
use sometuffcoolpr.Prelude.{
  ℕ, ◌<◌, ◌≤◌, ◌≡◌, ◌≢◌, refl, ◌∙◌, false, ap, arith, ==_self, ==_ne, List, [], ◌∷◌, some, length,
  leb,
}
use sometuffcoolpr.Prelude.Text.{codes}
use sometuffcoolpr.Str.{CString}
use sometuffcoolpr.Str.Compare.{IsText}
use sometuffcoolpr.Vga.Output.{text}
use sometuffcoolpr.Heap.{Heap}
use sometuffcoolpr.Fs.{ok, Node, Fs, deref, vfs_file}
use sometuffcoolpr.Fs.Ramfs.{new_node, create, lookup}
use sometuffcoolpr.Fs.Ramfs.Directory.{Others, created, fresh-created, lookup-new, lookup-objects}
use sometuffcoolpr.Fs.Path.{check_mount, lookup_part, vfs_lookup}
use sometuffcoolpr.Fs.Path.Walk.{parts, walk}
use sometuffcoolpr.Fs.Path.Mount.{Unmounted, mounted-Unmounted, vfs_lookup-walk}
use sometuffcoolpr.Fs.Fd.{Table, max_fds}
use sometuffcoolpr.Machine.{Machine, World, say, output}
use sometuffcoolpr.Shell.Commands.Storage.{with_object}
use sometuffcoolpr.Shell.Commands.Places.{Places, alloc_object-Places}
use sometuffcoolpr.Shell.Commands.Files.{node_size, create_on, made, cmd_mk, cmd_write, cmd_rd}
use sometuffcoolpr.Shell.Commands.Stored.{SameUse, cmd_write-cmd_rd}
use sometuffcoolpr.Shell.Commands.Stored.Words.{Grants, pieces_of, joined}

-- A name that the root directory does not have yet, and a heap that has a node of its own left at
-- `fresh`.
pub record Makes (w : World) (m : Machine) (name path : CString) (fresh : ℕ) (h : Heap) (p : Node)
    : Type 0 where
  pub some_root : m.cwd ≢ 0
  pub at_root : m.fs.root ≡ m.cwd
  pub stored : m.fs.nodes m.cwd ≡ some p
  pub others : Others fresh p.children
  pub room : length p.children < 32
  pub short : length name < 64
  pub free : lookup m.fs m.cwd name ≡ ok 0
  pub one : parts path ≡ name ∷ []
  pub places : Places w m.heap m.fs.objects node_size fresh h
  pub apart : m.cwd ≢ fresh
  pub unmounted : Unmounted m.fs.mounts fresh

module _ (w : World) (m : Machine) (name path : CString) (fresh : ℕ) (h : Heap) (p : Node)
    (k : Makes w m name path fresh h p) where
  abbrev with_file : Fs
  with_file =
      created fresh (with_object fresh node_size m.fs) m.cwd p name vfs_file k.places.some_ptr
        k.some_root k.apart k.stored k.others

  abbrev after : Machine
  after = output (text (codes "File created\n") ∷ []) (record m { heap = h; fs = with_file })

  root_node : deref m.fs m.cwd ≡ ok p
  root_node = rw (k.stored, deref) refl

  cmd_mk-ok : (cmd : CString) → cmd_mk (cmd ∷ name ∷ []) w m ≡ ok after
  unfolding cmd_mk create_on made create
  cmd_mk-ok cmd =
      let not_full : leb 32 (length p.children) ≡ false = ground (arith, k.room) in
      let fits : leb 64 (length name) ≡ false = ground (arith, k.short) in
      rw (==_ne m.cwd 0 k.some_root, root_node)
        (rw (not_full, alloc_object-Places w m node_size fresh h k.places)
          (rw root_node (rw (not_full, ==_ne fresh 0 k.places.some_ptr, fits) refl)))

  part_new : lookup_part with_file m.cwd name ≡ ok fresh
  unfolding lookup_part lookup
  part_new =
      let fits : leb 64 (length name) ≡ false = ground (arith, k.short) in
      let found =
        lookup-new fresh (with_object fresh node_size m.fs) m.cwd p name vfs_file k.places.some_ptr
          k.some_root k.apart k.stored k.others (lookup-objects m.fs _ m.cwd name ∙ k.free) in
      rw (fits, found) (rw (==_self m.cwd, deref) refl)

  leads-new : vfs_lookup with_file path ≡ ok fresh
  unfolding walk check_mount
  leads-new =
      vfs_lookup-walk with_file path (rw k.at_root k.some_root)
      ∙ ap (λ c. walk with_file c (parts path)) k.at_root
      ∙ rw k.one (
          rw
            (
              part_new,
              ==_ne fresh 0 k.places.some_ptr,
              mounted-Unmounted m.fs.mounts fresh k.unmounted,
            )
            refl)

module _ (w : World) (m : Machine) (name path : CString) (fresh : ℕ) (h : Heap) (p : Node)
    (k : Makes w m name path fresh h p) (cmd cmd₁ cmd₂ s : CString) (words : List CString) (j : ℕ)
    (inside : j < max_fds) (unused : (m.fds j).used ≡ false) where
  -- Where the working directory is the root, which is not full and does not have the name yet, the
  -- name has fewer than 64 characters and is the only part of the path, the heap gives a node that is
  -- neither the root nor in it and that no other node or buffer meets, nothing is mounted on that node
  -- and a descriptor is left: `mk` of the name succeeds. `write` to the path of words that make, with a
  -- space between each two, a text of 1 to 255 bytes, where the heap gives each larger buffer, apart
  -- from all nodes and buffers so far, then succeeds, and `rd` of the path prints exactly that text
  -- and a newline. Afterwards the same descriptors are in use as before. (The calls of `kmalloc` write
  -- to no node or buffer.)
  pub cmd_mk-cmd_write-cmd_rd :
      IsText (joined (s ∷ words))
      → 0 < length (joined (s ∷ words))
      → length (joined (s ∷ words)) ≤ 255
      → Grants w h ((fresh, node_size) ∷ m.fs.objects) 0 0 (pieces_of (s ∷ words))
      → (m₁ : Machine) × (m₂ : Machine) × (t : Table) × (cmd_mk (cmd ∷ name ∷ []) w m ≡ ok m₁)
        × (cmd_write (cmd₁ ∷ path ∷ s ∷ words) w m₁ ≡ ok m₂)
        × (cmd_rd (cmd₂ ∷ path ∷ []) w m₂
            ≡ say (text (joined (s ∷ words)) ∷ text (codes "\n") ∷ []) (record m₂ { fds = t }))
        × SameUse m.fds t
  cmd_mk-cmd_write-cmd_rd chars some_bytes small granted =
      let made_file =
        fresh-created fresh (with_object fresh node_size m.fs) m.cwd p name vfs_file
          k.places.some_ptr k.some_root k.apart k.stored k.others in
      let (m₂, t, stored, read, same) =
        cmd_write-cmd_rd cmd₁ cmd₂ path s words w (after w m name path fresh h p k) fresh j
          (new_node name vfs_file m.cwd) (rw k.at_root k.some_root)
          (leads-new w m name path fresh h p k) k.places.some_ptr made_file
          (record { file = refl; fits = omega arith }) inside unused chars some_bytes small
          (omega arith) granted in
      (
        after w m name path fresh h p k,
        m₂,
        t,
        cmd_mk-ok w m name path fresh h p k cmd,
        stored,
        read,
        same,
      )
