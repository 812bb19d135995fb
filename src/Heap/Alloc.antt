-- ===== src/Heap/Alloc.antt =====
-- `kmalloc` of src/kernel/mm/heap.c and the first-fit allocator on the block list.
mod Split
mod Taken
mod Find
pub mod Grow
pub mod Policy
pub mod Gives
use Policy.{Outcome, grow, serve, request, largest}
use Grow.{Refines, first_block-Refines, append-Refines, Hit-Refines}
use Find.{search-first_fit, Hit, Miss}
use sometuffcoolpr.Prelude.{
  ℕ, zero, suc, ◌+◌, ◌-◌, ◌*◌, ◌/◌, ◌%◌, ◌^◌, ◌≤◌, ◌<◌, ◌≡◌, ◌≢◌, ◌⊎◌, inl, inr, refl, ◌∙◌, ap, sym,
  subst, Bool, true, false, ◌&&◌, ◌||◌, not, Option, none, some, List, [], ◌∷◌, ◌++◌, arith, ltb,
  leb, ◌==◌, if◌then◌else◌, Bool-cases, length,
}
use sometuffcoolpr.Prelude.Memory.{Memory, write}
use sometuffcoolpr.Heap.{
  Heap, kmalloc, allocate, first_block, append_block, new_block, align, search, Found, fits, last,
  heap_magic, kernel_heap_end, kernel_heap_start, magic_of, size_of, free_of, next_of, prev_of,
  take_block, u32, sub32, header_size,
}
use sometuffcoolpr.Heap.Blocks.{Block, block, flag, Chain, Ordered, Wf, first_fit}

allocate-Refines :
    (fuel size : ℕ) (h : Heap) (bs : List Block)
    → 0 < size
    → size % 8 ≡ 0
    → size ≤ 2 ^ 32 - 32
    → size ≤ largest h.end
    → Wf h bs
    → length bs < fuel
    → Refines (allocate fuel size h) (serve size bs h.end)
unfolding allocate
allocate-Refines fuel size h [] pos mult small fits_limit w enough =
    let none_yet : (h.head == 0) ≡ true = ground (arith, w.chain) in
    let e : h.end ≡ kernel_heap_start = w.reset refl ∙ w.at_start in
    let limit : size ≤ kernel_heap_start = ground arith in
    rw none_yet (first_block-Refines size h pos mult limit w)
allocate-Refines fuel size h (b ∷ bs) pos mult small fits_limit w enough =
    let some_block : (h.head == 0) ≡ false = ground (arith, w.chain.0, w.ordered.0, w.at_start) in
    rw some_block
      (elim (search-first_fit size fuel 0 h.head h.start h.end h.mem b bs pos mult
        (omega (arith, w.at_start)) w.below w.chain w.ordered (omega arith)) [
          | inl hit ↦ rw (hit.found, allocate) (Hit-Refines size fuel h b bs w hit)
          | inr miss ↦
              rw (miss.found, allocate) (append-Refines size fuel h b bs pos mult small w miss)
        ])

abbrev round_up : ℕ → ℕ
round_up size = (size + 7) / 8 * 8

kmalloc-refused :
    (fuel size : ℕ) (h : Heap)
    → size ≤ 2 ^ 32 - 32
    → h.end ≤ kernel_heap_end
    → (size == 0 || ltb (largest h.end) (round_up size)) ≡ true
    → kmalloc fuel size h ≡ some (0, h)
unfolding kmalloc
kmalloc-refused fuel size h small below c = ground arith

kmalloc-served :
    (fuel size : ℕ) (h : Heap)
    → size ≤ 2 ^ 32 - 32
    → h.end ≤ kernel_heap_end
    → (size == 0 || ltb (largest h.end) (round_up size)) ≡ false
    → kmalloc fuel size h ≡ allocate fuel (round_up size) h
unfolding kmalloc
kmalloc-served fuel size h small below c =
    let rounded : align size ≡ round_up size = omega arith in
    let zero_no : (size == 0) ≡ false = ground arith in
    let up : ltb (round_up size) size ≡ false = ground arith in
    let limit : ltb (sub32 (sub32 (sub32 kernel_heap_end h.end) header_size) 4) (round_up size)
        ≡ false =
      ground arith in
    rw (zero_no, rounded, up, limit)

request-refused :
    (size end : ℕ) (bs : List Block)
    → (size == 0 || ltb (largest end) (round_up size)) ≡ true
    → request size bs end ≡ (0, bs, end)
unfolding request
request-refused size end bs c = ground arith

request-served :
    (size end : ℕ) (bs : List Block)
    → size ≤ 2 ^ 32 - 32
    → (size == 0 || ltb (largest end) (round_up size)) ≡ false
    → request size bs end ≡ serve (round_up size) bs end
unfolding request
request-served size end bs small c = ground arith

-- On a well-formed heap, `kmalloc` with fuel for the list ends, returns the address that the
-- abstract first-fit allocator returns, and leaves a heap well formed for the abstract outcome:
-- list of blocks and end. (Requests above 2 ^ 32 - 32 bytes are excluded.)
pub kmalloc-Refines :
    (fuel size : ℕ) (h : Heap) (bs : List Block)
    → size ≤ 2 ^ 32 - 32
    → Wf h bs
    → length bs < fuel
    → Refines (kmalloc fuel size h) (request size bs h.end)
kmalloc-Refines fuel size h bs small w enough =
    elim (Bool-cases (size == 0 || ltb (largest h.end) (round_up size))) [
      | inl no_room ↦
          rw
            (
              kmalloc-refused fuel size h small w.below no_room,
              request-refused size h.end bs no_room,
            )
            (record { heap = h; result = refl; ends = refl; wf = w })
      | inr tried ↦
          rw
            (
              kmalloc-served fuel size h small w.below tried,
              request-served size h.end bs small tried,
            )
            (allocate-Refines fuel (round_up size) h bs (ground arith) (omega arith) (omega arith)
              (ground arith) w enough)
    ]
