-- ===== src/Heap/Free/Policy.antt =====
-- The deallocator that `kfree` implements, on the list of blocks.
use sometuffcoolpr.Prelude.{ℕ, ◌+◌, Bool, true, false, List, [], ◌∷◌, ◌==◌, if◌then◌else◌}
use sometuffcoolpr.Heap.{kernel_heap_start}
use sometuffcoolpr.Heap.Blocks.{Block, block}

-- A free block takes in the block behind it, with its header and a tail, if that one is free.
unfoldable pub with_next : Block → List Block → List Block
with_next b [] = block b.addr b.size true ∷ []
with_next b (n ∷ ns) =
    if n.free
    then block b.addr (b.size + (24 + n.size)) true ∷ ns
    else block b.addr b.size true ∷ n ∷ ns

-- The block at `a` becomes free, and is merged with the block behind it.
unfoldable pub free_next : ℕ → List Block → List Block
free_next a [] = []
free_next a (b ∷ bs) = let rest = b ∷ free_next a bs in if b.addr == a then with_next b bs else rest

abbrev pub starts : ℕ → List Block → Bool
starts a [] = false
starts a (b ∷ bs) = b.addr == a

-- The free block at `a` is merged with the block before it.
unfoldable pub free_prev : ℕ → List Block → List Block
free_prev a [] = []
free_prev a (b ∷ bs) =
    let rest = b ∷ free_prev a bs in
    if b.addr == a
    then b ∷ bs
    else if starts a bs
    then (if b.free then with_next b bs else b ∷ bs)
    else rest

-- `heap_end` falls to a free last block, which stays in the list.
unfoldable pub end_after : List Block → ℕ → ℕ
end_after [] end = end
end_after (b ∷ []) end = if b.free then b.addr else end
end_after (b ∷ c ∷ bs) end = end_after (c ∷ bs) end

-- A heap with one free block is emptied.
unfoldable pub settle : List Block → ℕ → List Block × ℕ
unfolding end_after
settle [] end = ([], end)
settle (b ∷ []) end = if b.free then ([], kernel_heap_start) else (b ∷ [], end)
settle (b ∷ c ∷ bs) end = (b ∷ c ∷ bs, end_after (c ∷ bs) end)

-- The list and the end after the block at `a` is freed.
abbrev pub dispose : ℕ → List Block → ℕ → List Block × ℕ
dispose a bs end = settle (free_prev a (free_next a bs)) end
