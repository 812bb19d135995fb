-- ===== src/Heap/Free/Prev.antt =====
-- `kfree` of mm/heap.c merges a free block with the block before it.
use sometuffcoolpr.Prelude.{
  ℕ, ◌+◌, ◌≤◌, ◌≡◌, ◌≢◌, ◌⊎◌, inl, inr, ◌∙◌, ap, arith, List, [], ◌∷◌, true, false, refl,
  Bool-cases, sym,
}
use sometuffcoolpr.Prelude.Memory.{Memory}
use sometuffcoolpr.Heap.{
  Heap, absorb_into, merge_prev, mergeable, kernel_heap_start, kernel_heap_end, free_of, next_of,
  prev_of,
}
use sometuffcoolpr.Heap.Blocks.{Block, block, flag, Chain, Ordered, lo-le-hi}
use sometuffcoolpr.Heap.Free.Policy.{with_next, free_prev}
use sometuffcoolpr.Heap.Free.Merge.{Merged-Chain, absorb_into-Merged}
use sometuffcoolpr.Heap.Free.Next.{
  Freed, Freed-cons, first, mergeable_free, mergeable_used, with_next-free,
}

-- The block at `a` is free.
abbrev pub FreeAt : ℕ → List Block → Type 0
FreeAt a [] = ⊥
FreeAt a (b ∷ bs) = ((b.addr ≡ a) × (b.free ≡ true)) ⊎ ((b.addr ≢ a) × FreeAt a bs)

-- The block at `a` begins at most twelve bytes behind the block before it, if that one is free.
abbrev pub Near : ℕ → List Block → Type 0
Near a [] = Unit {0}
Near a (b ∷ []) = Unit {0}
Near a (b ∷ n ∷ ns) = (n.addr ≡ a → b.free ≡ true → n.addr ≤ b.addr + 32 + b.size) × Near a (n ∷ ns)

merge_prev-apart :
    (h : Heap) (b p : ℕ) (m : Memory)
    → m (prev_of b) ≡ p
    → mergeable h m p ≡ false
    → merge_prev h b m ≡ m
unfolding merge_prev
merge_prev-apart h b p m e used = rw (e, used)

merge_prev-absorb :
    (h : Heap) (b p : ℕ) (m : Memory)
    → m (prev_of b) ≡ p
    → mergeable h m p ≡ true
    → merge_prev h b m ≡ absorb_into p b m
unfolding merge_prev
merge_prev-absorb h b p m e free = rw (e, free)

pub free_prev-here :
    (a : ℕ) (b : Block) (bs : List Block) → b.addr ≡ a → free_prev a (b ∷ bs) ≡ b ∷ bs
unfolding free_prev
free_prev-here a b bs e = ground arith

free_prev-joined :
    (a : ℕ) (b n : Block) (ns : List Block)
    → b.addr ≢ a
    → n.addr ≡ a
    → b.free ≡ true
    → free_prev a (b ∷ n ∷ ns) ≡ with_next b (n ∷ ns)
unfolding free_prev
free_prev-joined a b n ns other e free = ground arith

pub free_prev-apart :
    (a : ℕ) (b n : Block) (ns : List Block)
    → b.addr ≢ a
    → n.addr ≡ a
    → b.free ≡ false
    → free_prev a (b ∷ n ∷ ns) ≡ b ∷ n ∷ ns
unfolding free_prev
free_prev-apart a b n ns other e used = ground arith

pub free_prev-later :
    (a : ℕ) (b n : Block) (ns : List Block)
    → b.addr ≢ a
    → n.addr ≢ a
    → free_prev a (b ∷ n ∷ ns) ≡ b ∷ free_prev a (n ∷ ns)
unfolding free_prev
free_prev-later a b n ns other further = ground arith

module _ (h : Heap) (low : h.start ≡ kernel_heap_start) (high : h.end ≤ kernel_heap_end) where
  joined :
      (ns : List Block) (b n : Block) (lo prev p : ℕ) (m : Memory)
      → h.start ≤ lo
      → b.free ≡ true
      → n.free ≡ true
      → Chain m prev p (b ∷ n ∷ ns)
      → Ordered lo (b ∷ n ∷ ns) h.end
      → n.addr ≤ b.addr + 32 + b.size
      → Ordered (b.addr + 20 + (b.size + (24 + n.size))) ns h.end
      → Freed prev p p (block b.addr (b.size + (24 + n.size)) true ∷ ns) m (merge_prev h n.addr m)
  joined ns b n lo prev p m at free_b free_n ch o near room =
      let next = m (next_of n.addr) in
      let cn = ch.5 in
      let on = o.4 in
      let top : n.addr + 20 + n.size ≤ h.end = lo-le-hi ns (n.addr + 20 + n.size) h.end on.4 in
      let edge : b.addr + 20 + (b.size + (24 + n.size)) ≤ h.end =
        lo-le-hi ns (b.addr + 20 + (b.size + (24 + n.size))) h.end room in
      let is_free : m (free_of b.addr) ≡ 1 = ch.3 ∙ ap flag free_b in
      let next_b : m (next_of b.addr) ≡ n.addr = cn.0 in
      let test = mergeable_free h m b.addr (omega arith) (omega arith) (omega arith) is_free in
      let f = first ns m n.addr next (b.addr + 20 + (b.size + (24 + n.size))) h.end cn.5 room in
      let g =
        absorb_into-Merged m b.addr b.size n.addr n.size next ch.2 cn.2 refl is_free on.0
          (omega arith) (omega arith) (λ ne. ((f ne).low, (f ne).magic)) cn.4 near on.2 on.3 in
      rw (merge_prev-absorb h n.addr b.addr m cn.4 test, ch.0)
        (record {
          chain =
              Merged-Chain ns b.addr (b.size + (24 + n.size)) next prev n.addr
                (b.addr + 20 + (b.size + (24 + n.size))) h.end m (absorb_into b.addr n.addr m) g
                ch.1 ch.4 cn.5 (omega arith) room;
          below = g.below;
        })

  -- `kfree` merges the block at `a` with a free block before it.
  pub free_prev-Freed :
      (bs : List Block) (a prev p lo : ℕ) (m : Memory)
      → h.start ≤ lo
      → Chain m prev p bs
      → Ordered lo bs h.end
      → FreeAt a bs
      → Near a bs
      → Ordered lo (free_prev a bs) h.end
      → (p ≡ a → mergeable h m prev ≡ false)
      → Freed prev p p (free_prev a bs) m (merge_prev h a m)
  free_prev-Freed [] a prev p lo m at ch o f near room top = absurd f
  free_prev-Freed (b ∷ bs) a prev p lo m at ch o (inl (e, free)) near room top =
      let back : m (prev_of a) ≡ prev = ap (λ x. m (prev_of x)) (sym e) ∙ ch.4 in
      rw (free_prev-here a b bs e, merge_prev-apart h a prev m back (top (ch.0 ∙ e)))
        (record { chain = ch; below = λ x l. refl })
  free_prev-Freed (b ∷ []) a prev p lo m at ch o (inr (other, f)) near room top = absurd f
  free_prev-Freed (b ∷ n ∷ ns) a prev p lo m at ch o (inr (other, inl (e, free))) near room top =
      elim (Bool-cases b.free) [
        | inl free_b ↦
            let q = free_prev-joined a b n ns other e free_b ∙ with_next-free b n ns free in
            rw (q, sym e)
              (joined ns b n lo prev p m at free_b free ch o (near.0 e free_b) (rw q at room).4)
        | inr used ↦
            let back : m (prev_of a) ≡ b.addr = ap (λ x. m (prev_of x)) (sym e) ∙ ch.5.4 in
            let z = mergeable_used h m b.addr (ch.3 ∙ ap flag used) in
            rw (free_prev-apart a b n ns other e used, merge_prev-apart h a b.addr m back z)
              (record { chain = ch; below = λ x l. refl })
      ]
  free_prev-Freed (b ∷ n ∷ ns) a prev p lo m at ch o (inr (other, inr (further, f))) near room top =
      let q = free_prev-later a b n ns other further in
      let g =
        free_prev-Freed (n ∷ ns) a b.addr (m (next_of b.addr)) (b.addr + 20 + b.size) m
          (omega (arith, o.0)) ch.5 o.4 (inr (further, f)) near.1 (rw q at room).4
          (λ e. absurd (further (sym ch.5.0 ∙ e))) in
      rw q (
        let r =
          Freed-cons b (n ∷ ns) (free_prev a (n ∷ ns)) prev p (m (next_of b.addr)) m
            (merge_prev h a m) ch (omega (arith, ch.5.0, o.4.0)) g in
        record { chain = r.chain; below = λ x l. r.below x (omega (arith, ch.0, ch.5.0, o.4.0)) })
