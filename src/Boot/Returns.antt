-- ===== src/Boot/Returns.antt =====
-- That the boot of src/kernel/core/boot.c ends, and with what.
use sometuffcoolpr.Prelude.{ℕ, ◌^◌, ◌<◌, ◌≡◌, ◌≢◌, [], ◌∷◌}
use sometuffcoolpr.Prelude.Text.{codes}
use sometuffcoolpr.Heap.{Heap, heap_init}
use sometuffcoolpr.Pmm.{Pmm, pmm_init}
use sometuffcoolpr.Fs.{ok, Fs}
use sometuffcoolpr.Fs.Path.{vfs_lookup}
use sometuffcoolpr.Machine.{Machine, World}
use sometuffcoolpr.Shell.Commands.Files.{node_size}
use sometuffcoolpr.Shell.Commands.Places.{Places}
use sometuffcoolpr.Boot.{Platform}
use sometuffcoolpr.Boot.Stages.{At}
use sometuffcoolpr.Keyboard.Queue

-- What the boot needs to end: a memory map that `pmm_init` accepts, a heap that gives three nodes
-- apart from each other and from the nodes and buffers before and writes to none of them, an empty
-- mount table, a clock in range and fuel for the longest wait.
pub record CanBoot (p : Platform) (w : World) (m : Machine) (root node tmp : ℕ) : Type 0 where
  pub h1 : Heap
  pub h2 : Heap
  pub h3 : Heap
  pub accepted : (pmm_init p.kernel_start p.kernel_end p.flags p.regions p.bitmap m.pmm).0 ≡ 0
  pub first : Places w (heap_init m.heap) m.fs.objects node_size root h1
  pub second : Places w h1 ((root, node_size) ∷ m.fs.objects) node_size node h2
  pub third : Places w h2 ((node, node_size) ∷ (root, node_size) ∷ m.fs.objects) node_size tmp h3
  pub root_node : root ≢ node
  pub root_tmp : root ≢ tmp
  pub node_tmp : node ≢ tmp
  pub no_mounts : m.fs.mounts ≡ []
  pub ticks_in : m.timer.ticks < 2 ^ 32
  pub enough : 220 < w.fuel

module _ (p : Platform) (w : World) (m : Machine) (root node tmp : ℕ)
    (c : CanBoot p w m root node tmp) where
  abbrev pmm_of : Pmm
  pmm_of = (pmm_init p.kernel_start p.kernel_end p.flags p.regions p.bitmap m.pmm).1

  -- All three nodes are made, and the path leads to the last one.
  abbrev Mounted : Pmm → Machine → Type 0
  Mounted pmm m' = (fs' : Fs) × At pmm c.h3 fs' m' × (vfs_lookup fs' (codes "/tmp") ≡ ok tmp)
