-- ===== src/Heap/Alloc/Taken.antt =====
-- Taking a block of a chain of src/kernel/mm/heap.c, cut or whole.
use sometuffcoolpr.Prelude.{
  ℕ, ◌+◌, ◌-◌, ◌%◌, ◌≤◌, ◌<◌, ◌≡◌, ◌⊎◌, inl, inr, refl, ◌∙◌, sym, subst, true, false, List, [], ◌∷◌,
  arith, leb, Bool-cases,
}
use sometuffcoolpr.Prelude.Memory.{Memory, write}
use sometuffcoolpr.Heap.{take_block, kernel_heap_end, free_of, next_of}
use sometuffcoolpr.Heap.Blocks.{Block, Chain, Ordered, Chain-frame, Chain-relink, lo-le-hi, fit}
use sometuffcoolpr.Heap.Alloc.Split.{take_block-Cut, take_block-whole}

-- The next pointer of a block is NULL or lies behind the block.
next-behind :
    (bs : List Block) (m : Memory) (prev p lo hi : ℕ)
    → Ordered lo bs hi
    → Chain m prev p bs
    → (p ≡ 0) ⊎ (lo ≤ p)
next-behind [] m prev p lo hi o c = inl c
next-behind (b ∷ bs) m prev p lo hi o c = inr (omega (arith, c.0))

Ordered-weaken : (bs : List Block) (lo lo' hi : ℕ) → lo ≤ lo' → Ordered lo' bs hi → Ordered lo bs hi
Ordered-weaken [] lo lo' hi h o = omega arith
Ordered-weaken (b ∷ bs) lo lo' hi h o = (omega arith, o.1, o.2, o.3, o.4)

-- Taking the first block of a chain: the chain becomes that of `fit`.
abbrev Taken : ℕ → Memory → ℕ → ℕ → ℕ → ℕ → Block → List Block → Memory → Type 0
Taken size m prev p lo hi b bs m' =
    Chain m' prev p (fit size b bs)
    × Ordered lo (fit size b bs) hi
    × ((x : ℕ) → x < lo → m' x ≡ m x)

take-cut :
    (size prev p lo hi : ℕ) (m : Memory) (b : Block) (bs : List Block)
    → 0 < size
    → size % 8 ≡ 0
    → 0 < lo
    → hi ≤ kernel_heap_end
    → Chain m prev p (b ∷ bs)
    → Ordered lo (b ∷ bs) hi
    → size + 32 ≤ b.size
    → Taken size m prev p lo hi b bs (take_block size b.addr m)
unfolding fit
take-cut size prev p lo hi m b bs pos mult low high c o room =
    let top : b.addr + 20 + b.size ≤ hi = lo-le-hi bs (b.addr + 20 + b.size) hi o.4 in
    let next = m (next_of b.addr) in
    let behind = next-behind bs m b.addr next (b.addr + 20 + b.size) hi o.4 c.5 in
    let k = take_block-Cut size b.addr b.size next m pos c.2 refl room (omega arith) behind in
    let yes_cut : leb (size + 32) b.size ≡ true = ground arith in
    let relinked =
      Chain-relink bs m (take_block size b.addr m) b.addr (b.addr + 20 + size) next
        (b.addr + 20 + b.size) hi (omega arith) o.4 (λ a l r ne. k.above a l ne) k.back c.5 in
    let e : b.addr + 20 + size + 20 + (b.size - size - 24) ≤ b.addr + 20 + b.size = omega arith in
    rw yes_cut (
      (
        c.0,
        k.magic ∙ c.1,
        k.size_set,
        k.used,
        k.prev ∙ c.4,
        (k.next_set, k.new_magic, k.new_size, k.new_free, k.new_prev, rw k.new_next relinked),
      ),
      (
        omega arith,
        omega arith,
        pos,
        mult,
        (omega arith, omega arith, omega arith, omega arith, Ordered-weaken bs _ _ hi e o.4),
      ),
      λ x h. k.below x (omega arith),
    )

mark-whole :
    (size prev p lo hi : ℕ) (m : Memory) (b : Block) (bs : List Block)
    → Chain m prev p (b ∷ bs)
    → Ordered lo (b ∷ bs) hi
    → b.size < size + 32
    → Taken size m prev p lo hi b bs (write m (free_of b.addr) 0)
unfolding fit
mark-whole size prev p lo hi m b bs c o small =
    let no_cut : leb (size + 32) b.size ≡ false = ground arith in
    let m' : Memory = write m (free_of b.addr) 0 in
    let e : m' (next_of b.addr) ≡ m (next_of b.addr) = ground arith in
    let rest =
      Chain-frame bs m m' b.addr (m (next_of b.addr)) (b.addr + 20 + b.size) hi o.4
        (λ x l r. ground arith) c.5 in
    rw no_cut (
      (c.0, ground arith, ground arith, ground arith, ground arith, rw e rest),
      o,
      λ x h. ground arith,
    )

take-whole :
    (size prev p lo hi : ℕ) (m : Memory) (b : Block) (bs : List Block)
    → hi ≤ kernel_heap_end
    → Chain m prev p (b ∷ bs)
    → Ordered lo (b ∷ bs) hi
    → size ≤ b.size
    → b.size < size + 32
    → Taken size m prev p lo hi b bs (take_block size b.addr m)
take-whole size prev p lo hi m b bs high c o room small =
    let top : b.addr + 20 + b.size ≤ hi = lo-le-hi bs (b.addr + 20 + b.size) hi o.4 in
    subst (Taken size m prev p lo hi b bs)
      (sym (take_block-whole size b.addr b.size m c.2 small (omega arith)))
      (mark-whole size prev p lo hi m b bs c o small)

pub take-first :
    (size prev p lo hi : ℕ) (m : Memory) (b : Block) (bs : List Block)
    → 0 < size
    → size % 8 ≡ 0
    → 0 < lo
    → hi ≤ kernel_heap_end
    → Chain m prev p (b ∷ bs)
    → Ordered lo (b ∷ bs) hi
    → size ≤ b.size
    → Taken size m prev p lo hi b bs (take_block size b.addr m)
take-first size prev p lo hi m b bs pos mult low high c o room =
    elim (Bool-cases (leb (size + 32) b.size)) [
      | inl cut ↦ take-cut size prev p lo hi m b bs pos mult low high c o (ground arith)
      | inr whole ↦ take-whole size prev p lo hi m b bs high c o room (ground arith)
    ]
