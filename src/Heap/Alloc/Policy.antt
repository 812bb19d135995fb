-- ===== src/Heap/Alloc/Policy.antt =====
-- The allocator that `kmalloc` implements: first fit on the list of blocks.
use sometuffcoolpr.Prelude.{
  ℕ, ◌+◌, ◌-◌, ◌*◌, ◌/◌, ◌^◌, ◌||◌, none, some, List, [], ◌∷◌, ◌++◌, ltb, leb, ◌==◌, if◌then◌else◌,
  length, false,
}
use sometuffcoolpr.Heap.{kernel_heap_end}
use sometuffcoolpr.Heap.Blocks.{Block, block, first_fit}

-- The abstract allocator, on the block list and `heap_end`: the address returned (0 for NULL), the
-- new list and the new end.
abbrev pub Outcome : Type 0
Outcome = ℕ × List Block × ℕ

-- A new block at the end of the heap; the first one reserves no room for its tail.
unfoldable pub grow : ℕ → List Block → ℕ → Outcome
grow size bs end =
    let room : ℕ = if length bs == 0 then 20 + size else 24 + size in
    if leb kernel_heap_end (end + room)
    then (0, bs, end)
    else (end + 20, bs ++ (block end size false ∷ []), end + room)

unfoldable pub serve : ℕ → List Block → ℕ → Outcome
serve size bs end = elim (first_fit size bs) [
  | none ↦ grow size bs end
  | some (p, bs') ↦ (p, bs', end)
]

-- The largest request that is tried: what lies between `heap_end` and the limit, less a header and a
-- tail; above the limit less those, nearly any.
abbrev pub largest : ℕ → ℕ
largest end =
    if leb (end + 24) kernel_heap_end
    then kernel_heap_end - end - 24
    else 2 ^ 32 + kernel_heap_end - end - 24

-- A request is rounded up to a multiple of eight; 0 and what is too large are refused.
unfoldable pub request : ℕ → List Block → ℕ → Outcome
request size bs end =
    let rounded : ℕ = (size + 7) / 8 * 8 in
    if size == 0 || (ltb (2 ^ 32 - 8) size || ltb (largest end) rounded)
    then (0, bs, end)
    else serve rounded bs end
