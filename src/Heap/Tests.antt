-- ===== src/Heap/Tests.antt =====
-- Heaps with two blocks and with one, for src/kernel/mm/heap.c.
use sometuffcoolpr.Prelude.{
  ℕ, ◌+◌, ◌-◌, ◌^◌, ◌≡◌, ◌<◌, ◌≤◌, ◌⊎◌, inl, inr, refl, Bool, true, false, none, some, List, [],
  ◌∷◌, arith, ◌==◌, if◌then◌else◌,
}
use sometuffcoolpr.Prelude.Memory.{Memory}
use sometuffcoolpr.Heap.{
  Heap, double_free, kmalloc, kfree, heap_validate, structure_valid, heap_magic, absorb_into,
  size_of, next_of,
}
use sometuffcoolpr.Heap.Blocks.{Block, block, Wf, first_fit}
use sometuffcoolpr.Heap.Alloc.{kmalloc-Refines}
use sometuffcoolpr.Heap.Alloc.Grow.{Refines}
use sometuffcoolpr.Heap.Alloc.Policy.{request}
use sometuffcoolpr.Heap.Alloc.Gives.{Gives, kmalloc-Gives}
use sometuffcoolpr.Heap.Validate.{heap_validate-Wf}
use sometuffcoolpr.Heap.Free.{kfree-double_free}
use sometuffcoolpr.Heap.Free.Policy.{dispose, free_next, free_prev, settle, with_next}
use sometuffcoolpr.Heap.Free.Refines.{Fits, Frees, kfree-Refines}
use sometuffcoolpr.Heap.Free.Restore.{kmalloc-kfree}
use sometuffcoolpr.Heap.Faults.{absorb_into-overwrites, free_then_alloc-circular, kmalloc-oversize}

abbrev words : List (ℕ × ℕ) → Memory
words [] a = 0
words ((p, v) ∷ ws) a = if a == p then v else words ws a

-- A block of 16 bytes in use and one of 8, whose flag is the argument, as two calls of `kmalloc`
-- leave them.
abbrev two_words : ℕ → List (ℕ × ℕ)
two_words flag =
    (0x400000, 0xDEADBEEF)
    ∷ (0x400004, 16)
    ∷ (0x40000C, 0x400024)
    ∷ (0x400024, 0xDEADBEEF)
    ∷ (0x400028, 8)
    ∷ (0x40002C, flag)
    ∷ (0x400034, 0x400000)
    ∷ (0x400040, 0xDEADBEEF)
    ∷ []

abbrev two : ℕ → Heap
two flag = record {
  mem = words (two_words flag);
  start = 0x400000;
  head = 0x400000;
  end = 0x400044;
}

abbrev front : Block
front = block 0x400000 16 false

abbrev back : Bool → Block
back free = block 0x400024 8 free

two_used-Wf : Wf (two 0) (front ∷ back false ∷ [])
two_used-Wf = record {
  at_start = refl;
  below = omega arith;
  aligned = refl;
  chain = (refl, refl, refl, refl, refl, (refl, refl, refl, refl, refl, refl));
  ordered =
      (omega arith, refl, omega arith, refl, (omega arith, refl, omega arith, refl, omega arith));
  reset = λ q. absurd (ground arith);
}

back_free-Wf : Wf (two 1) (front ∷ back true ∷ [])
back_free-Wf = record {
  at_start = refl;
  below = omega arith;
  aligned = refl;
  chain = (refl, refl, refl, refl, refl, (refl, refl, refl, refl, refl, refl));
  ordered =
      (omega arith, refl, omega arith, refl, (omega arith, refl, omega arith, refl, omega arith));
  reset = λ q. absurd (ground arith);
}

-- One block in use up to 20 bytes below the limit.
abbrev full : Heap
full = record {
  mem = words ((0x400000, 0xDEADBEEF) ∷ (0x400004, 0x3FFFD8) ∷ []);
  start = 0x400000;
  head = 0x400000;
  end = 0x7FFFEC;
}

abbrev whole : Block
whole = block 0x400000 0x3FFFD8 false

full-Wf : Wf full (whole ∷ [])
full-Wf = record {
  at_start = refl;
  below = omega arith;
  aligned = refl;
  chain = (refl, refl, refl, refl, refl, refl);
  ordered = (omega arith, refl, omega arith, refl, omega arith);
  reset = λ q. absurd (ground arith);
}

kmalloc-Refines_example :
    Refines (kmalloc 3 5 (two 1)) (request 5 (front ∷ back true ∷ []) 0x400044)
kmalloc-Refines_example =
    kmalloc-Refines 3 5 (two 1) (front ∷ back true ∷ []) (omega arith) back_free-Wf (omega arith)

kmalloc-Gives_example :
    (p : ℕ) × (h' : Heap) × (bs' : List Block) × (kmalloc 3 5 (two 1) ≡ some (p, h'))
    × Wf h' bs'
    × (((p ≡ 0) × (bs' ≡ front ∷ back true ∷ []) × (h'.end ≡ 0x400044))
        ⊎ Gives 5 p (front ∷ back true ∷ []) bs')
kmalloc-Gives_example =
    kmalloc-Gives 3 5 (two 1) (front ∷ back true ∷ []) (omega arith) back_free-Wf (omega arith)

heap_validate-Wf_example : heap_validate 3 (two 0) ≡ some structure_valid
heap_validate-Wf_example =
    heap_validate-Wf 3 (two 0) (front ∷ back false ∷ []) two_used-Wf (omega arith)

kfree-double_free_example : kfree 1 0x400038 (two 1) ≡ some (some double_free, two 1)
kfree-double_free_example =
    kfree-double_free 1 (two 1) (front ∷ back true ∷ []) (back true) back_free-Wf (inr (inl refl))
      refl refl

-- Three blocks of eight bytes without a gap.
abbrev packed : Memory
packed = words (
    (0x400004, 8)
    ∷ (0x40001C + 4, 8)
    ∷ (0x40001C + 12, 0x400038)
    ∷ (0x40001C + 16, 0x400000)
    ∷ (0x400038 + 4, 8)
    ∷ [])

absorb_into-overwrites_example :
    absorb_into 0x400000 0x40001C packed (size_of 0x400038) ≡ heap_magic
absorb_into-overwrites_example =
    absorb_into-overwrites packed 0x400000 0x40001C 0x400038 refl refl refl refl (omega arith)

free_then_alloc-circular_example :
    (h1 : Heap) × (h2 : Heap) × (kfree 3 0x400038 (two 0) ≡ some (none, h1))
    × (h1.end ≡ 0x400024)
    × (h1.mem (next_of 0x400000) ≡ 0x400024)
    × (kmalloc 3 13 h1 ≡ some (0x400038, h2))
    × (h2.mem (next_of 0x400024) ≡ 0x400024)
    × ((fuel request : ℕ)
        → 0 < request
        → h2.end + request + 32 ≤ 0x800000
        → kmalloc fuel request h2 ≡ none)
free_then_alloc-circular_example =
    free_then_alloc-circular (two 0) front (back false) 13
      (record { wf = two_used-Wf; used_b = refl; used_c = refl; tail = refl }) (omega arith)
      (omega arith)

kmalloc-oversize_example :
    (h' : Heap) × (kmalloc 1 (2 ^ 32 - 8) full ≡ some (0x800000, h'))
    × (h'.mem (next_of (0x800000 - 20)) ≡ heap_magic)
kmalloc-oversize_example = kmalloc-oversize full whole full-Wf refl refl

-- Four blocks as four calls of `kmalloc` lay them out. The first has the flag that is given, and the
-- third is free.
abbrev sparse : ℕ → Heap
sparse flag = record {
  mem = words (
      (0x400000, 0xDEADBEEF)
      ∷ (0x400004, 16)
      ∷ (0x400008, flag)
      ∷ (0x40000C, 0x400028)
      ∷ (0x400024, 0xDEADBEEF)
      ∷ (0x400028, 0xDEADBEEF)
      ∷ (0x40002C, 8)
      ∷ (0x400034, 0x400048)
      ∷ (0x400038, 0x400000)
      ∷ (0x400044, 0xDEADBEEF)
      ∷ (0x400048, 0xDEADBEEF)
      ∷ (0x40004C, 8)
      ∷ (0x400050, 1)
      ∷ (0x400054, 0x400068)
      ∷ (0x400058, 0x400028)
      ∷ (0x400068, 0xDEADBEEF)
      ∷ (0x40006C, 8)
      ∷ (0x400078, 0x400048)
      ∷ []);
  start = 0x400000;
  head = 0x400000;
  end = 0x400088;
}

abbrev middle : Block
middle = block 0x400028 8 false

abbrev sparse_blocks : Bool → List Block
sparse_blocks free =
    block 0x400000 16 free ∷ middle ∷ block 0x400048 8 true ∷ block 0x400068 8 false ∷ []

sparse-Wf : Wf (sparse 1) (sparse_blocks true)
sparse-Wf = record {
  at_start = refl;
  below = omega arith;
  aligned = refl;
  chain = omega arith;
  ordered = omega arith;
  reset = λ q. absurd (ground arith);
}

sparse-Fits : Fits 0x400028 (sparse_blocks true) 0x400088
unfolding free_next free_prev with_next
sparse-Fits = record {
  behind = omega arith;
  both = omega arith;
  near = (λ e f. omega arith, (λ e f. omega arith, tt));
}

-- The block behind the first becomes one with both its neighbours.
middle_freed :
    dispose 0x400028 (sparse_blocks true) 0x400088
    ≡ (block 0x400000 80 true ∷ block 0x400068 8 false ∷ [], 0x400088)
unfolding free_next free_prev with_next settle
middle_freed = refl

kfree-Refines_example :
    Frees (kfree 5 0x40003C (sparse 1)) (dispose 0x400028 (sparse_blocks true) 0x400088)
kfree-Refines_example =
    kfree-Refines 5 (sparse 1) (sparse_blocks true) middle sparse-Wf (inr (inl refl)) refl refl
      sparse-Fits (omega arith)

-- The first block taken, and given back.
taken-Wf : Wf (sparse 0) (sparse_blocks false)
taken-Wf = record {
  at_start = refl;
  below = omega arith;
  aligned = refl;
  chain = omega arith;
  ordered = omega arith;
  reset = λ q. absurd (ground arith);
}

served_first : first_fit 16 (sparse_blocks true) ≡ some (0x400014, sparse_blocks false)
unfolding first_fit
served_first = refl

kmalloc-kfree_example :
    (g : Heap) × (g' : Heap) × (kmalloc 6 10 (sparse 1) ≡ some (0x400014, g))
    × Wf g (sparse_blocks false)
    × (g.end ≡ 0x400088)
    × (kfree 6 0x400014 (sparse 0) ≡ some (none, g'))
    × Wf g' (sparse_blocks true)
    × (g'.end ≡ 0x400088)
kmalloc-kfree_example =
    kmalloc-kfree 6 10 0x400014 (sparse 1) (sparse 0) (sparse_blocks true) (sparse_blocks false)
      (block 0x400000 16 false) sparse-Wf
      ((λ e. refl), ((λ e. absurd (ground arith)), ((λ e. refl), tt))) refl (omega arith)
      (omega arith) (omega arith) (omega arith) served_first taken-Wf refl (inl refl) refl refl refl
