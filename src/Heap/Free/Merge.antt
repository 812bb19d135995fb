-- ===== src/Heap/Free/Merge.antt =====
-- The words that `kfree` writes when it merges two blocks of mm/heap.c.
use sometuffcoolpr.Prelude.{
  ℕ, ◌+◌, ◌≤◌, ◌<◌, ◌%◌, ◌≡◌, ◌≢◌, arith, ◌==◌, if◌then◌else◌, fun_ext, ◌∙◌, List, [], ◌∷◌, true,
  refl,
}
use sometuffcoolpr.Prelude.Memory.{Memory, write}
use sometuffcoolpr.Heap.{
  u32, tail_of, header_size, absorb, absorb_into, set_prev, heap_magic, kernel_heap_end, size_of,
  free_of, next_of, prev_of,
}
use sometuffcoolpr.Heap.Blocks.{Block, block, Chain, Chain-relink, Ordered}

-- The header at `a` becomes that of a free block of `s` bytes that is followed by `next`; what lies
-- below it, and the blocks from `next` on but for the first one's back link, are as they were.
pub record Merged (a s next : ℕ) (m m' : Memory) : Type 0 where
  pub magic : m' a ≡ m a
  pub size_set : m' (size_of a) ≡ s
  pub free_set : m' (free_of a) ≡ 1
  pub next_set : m' (next_of a) ≡ next
  pub prev : m' (prev_of a) ≡ m (prev_of a)
  pub below : (x : ℕ) → x < a → m' x ≡ m x
  pub above : next ≢ 0 → (x : ℕ) → next ≤ x → x ≢ prev_of next → m' x ≡ m x
  pub back : next ≢ 0 → m' (prev_of next) ≡ a

abbrev merged_words : ℕ → ℕ → ℕ → Memory → Memory
merged_words a s next m =
    let w : Memory =
      write (write (write m (size_of a) s) (next_of a) next) (a + 20 + s) heap_magic in
    if next == 0 then w else write w (prev_of next) a

merged_words-Merged :
    (a s next : ℕ) (m : Memory)
    → m (free_of a) ≡ 1
    → (next ≢ 0 → (a + 20 + s ≤ next) × (m next ≡ heap_magic))
    → Merged a s next m (merged_words a s next m)
merged_words-Merged a s next m free out = record {
  magic = ground arith;
  size_set = ground arith;
  free_set = ground arith;
  next_set = ground arith;
  prev = ground arith;
  below = λ x h. ground arith;
  above = λ ne x h other. ground (arith, out ne);
  back = λ ne. ground (arith, out ne);
}

module _ (m : Memory) (a s b t next : ℕ) (size_a : m (size_of a) ≡ s) (size_b : m (size_of b) ≡ t)
    (next_b : m (next_of b) ≡ next) (free : m (free_of a) ≡ 1) (apart : a + 20 + s ≤ b)
    (top : b + 20 + t ≤ kernel_heap_end) (room : a + 20 + (s + (24 + t)) ≤ kernel_heap_end)
    (out : next ≢ 0 → (a + 20 + (s + (24 + t)) ≤ next) × (m next ≡ heap_magic)) where
  absorb-words : m (next_of a) ≡ b → absorb a m ≡ merged_words a (s + (24 + t)) next m
  unfolding absorb set_prev
  absorb-words next_a = fun_ext λ x. ground arith

  -- The tail of the merged block lies behind the header that is read after it.
  absorb_into-words :
      m (prev_of b) ≡ a
      → b ≤ a + 32 + s
      → 0 < t
      → t % 8 ≡ 0
      → absorb_into a b m ≡ merged_words a (s + (24 + t)) next m
  unfolding absorb_into set_prev
  absorb_into-words prev_b near pos mult =
      let m1 : Memory = write m (size_of a) (s + (24 + t)) in
      let m2 : Memory = write m1 (a + 20 + (s + (24 + t))) heap_magic in
      let sum : u32 (m (size_of a) + (header_size + m (size_of b) + 4)) ≡ s + (24 + t) =
        omega (arith, size_a, size_b) in
      let p1 : m1 (prev_of b) ≡ a = ground arith in
      let s1 : m1 (size_of a) ≡ s + (24 + t) = ground arith in
      let tail : tail_of a (s + (24 + t)) ≡ a + 20 + (s + (24 + t)) = omega arith in
      let n2 : m2 (next_of b) ≡ next = ground arith in
      simp (sum, p1, s1, tail, n2) (fun_ext λ x. ground arith)

  pub absorb-Merged : m (next_of a) ≡ b → Merged a (s + (24 + t)) next m (absorb a m)
  absorb-Merged next_a =
      rw (absorb-words next_a) (merged_words-Merged a (s + (24 + t)) next m free out)

  pub absorb_into-Merged :
      m (prev_of b) ≡ a
      → b ≤ a + 32 + s
      → 0 < t
      → t % 8 ≡ 0
      → Merged a (s + (24 + t)) next m (absorb_into a b m)
  absorb_into-Merged prev_b near pos mult =
      rw (absorb_into-words prev_b near pos mult)
        (merged_words-Merged a (s + (24 + t)) next m free out)

-- The list that the merged header begins.
pub Merged-Chain :
    (rest : List Block) (a s next prev q lo hi : ℕ) (m m' : Memory)
    → Merged a s next m m'
    → m a ≡ heap_magic
    → m (prev_of a) ≡ prev
    → Chain m q next rest
    → 0 < lo
    → Ordered lo rest hi
    → Chain m' prev a (block a s true ∷ rest)
Merged-Chain [] a s next prev q lo hi m m' g magic back c pos o =
    (refl, g.magic ∙ magic, g.size_set, g.free_set, g.prev ∙ back, g.next_set ∙ c)
Merged-Chain (n ∷ ns) a s next prev q lo hi m m' g magic back c pos o =
    let ne : next ≢ 0 = λ z. omega (arith, c.0, o.0) in
    (
      refl,
      g.magic ∙ magic,
      g.size_set,
      g.free_set,
      g.prev ∙ back,
      rw g.next_set (
          Chain-relink (n ∷ ns) m m' q a next next hi (omega (arith, c.0, o.0))
            (omega (arith, c.0), o.1, o.2, o.3, o.4) (λ x l r other. g.above ne x l other)
            (λ z. g.back ne) c),
    )
