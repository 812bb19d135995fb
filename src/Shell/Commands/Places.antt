-- ===== src/Shell/Commands/Places.antt =====
-- When the heap of src/kernel/mm/heap.c has memory for a node or a buffer of its own.
use sometuffcoolpr.Prelude.{ℕ, List, some, true, false, ◌≡◌, ◌≢◌, refl}
use sometuffcoolpr.Heap.{Heap, kmalloc}
use sometuffcoolpr.Fs.{ok}
use sometuffcoolpr.Machine.{Machine, World}
use sometuffcoolpr.Shell.Commands.{finished}
use sometuffcoolpr.Shell.Commands.Storage.{
  meets, intact, with_heap, with_object, alloc_on, alloc_object,
}

-- `kmalloc` gives memory for a new object that is apart from the `objects`, and writes to none of them.
pub record Places (w : World) (h : Heap) (objects : List (ℕ × ℕ)) (size ptr : ℕ) (h' : Heap)
    : Type 0 where
  pub granted : kmalloc w.fuel size h ≡ some (ptr, h')
  pub some_ptr : ptr ≢ 0
  pub kept : intact objects h.mem h'.mem ≡ true
  pub apart : meets ptr size objects ≡ false

pub alloc_object-Places :
    (w : World) (m : Machine) (size ptr : ℕ) (h' : Heap)
    → Places w m.heap m.fs.objects size ptr h'
    → alloc_object size w m ≡ ok (ptr, record m { heap = h'; fs = with_object ptr size m.fs })
unfolding alloc_object alloc_on with_heap finished
alloc_object-Places w m size ptr h' k = rw (k.granted, k.kept) (rw k.apart refl)
