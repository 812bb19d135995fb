-- ===== src/Heap/Free/Next.antt =====
-- `kfree` of mm/heap.c marks a block free and merges it with the block behind it.
use sometuffcoolpr.Prelude.{
  ℕ, ◌+◌, ◌≤◌, ◌<◌, ◌≡◌, ◌≢◌, inl, inr, ◌∙◌, ap, arith, ◌==◌, List, [], ◌∷◌, true, false, refl,
  Bool-cases, ==_self,
}
use sometuffcoolpr.Prelude.Memory.{Memory, write}
use sometuffcoolpr.Heap.{
  Heap, absorb, merge_next, mergeable, heap_magic, kernel_heap_start, kernel_heap_end, size_of,
  free_of, next_of, prev_of, magic_of,
}
use sometuffcoolpr.Heap.Blocks.{Block, block, flag, Chain, Chain-frame, Ordered, lo-le-hi, In}
use sometuffcoolpr.Heap.Free.Policy.{with_next, free_next}
use sometuffcoolpr.Heap.Free.Merge.{Merged, Merged-Chain, absorb-Merged}

-- What a list that is not empty says of its first header.
pub record First (m : Memory) (q next lo : ℕ) : Type 0 where
  pub low : lo ≤ next
  pub magic : m next ≡ heap_magic
  pub back : m (prev_of next) ≡ q

pub first :
    (bs : List Block) (m : Memory) (q next lo hi : ℕ)
    → Chain m q next bs
    → Ordered lo bs hi
    → next ≢ 0
    → First m q next lo
first [] m q next lo hi c o ne = absurd (ne c)
first (b ∷ bs) m q next lo hi c o ne = record {
  low = omega (arith, c.0, o.0);
  magic = ap m c.0 ∙ c.1;
  back = ap (λ x. m (prev_of x)) c.0 ∙ c.4;
}

mark-Merged :
    (a s next : ℕ) (m : Memory)
    → m (size_of a) ≡ s
    → m (next_of a) ≡ next
    → (next ≢ 0 → First m a next (a + 20 + s))
    → Merged a s next m (write m (free_of a) 1)
mark-Merged a s next m hs hn f = record {
  magic = ground arith;
  size_set = ground arith;
  free_set = ground arith;
  next_set = ground arith;
  prev = ground arith;
  below = λ x h. ground arith;
  above = λ ne x h other. ground (arith, (f ne).low);
  back = λ ne. ground (arith, (f ne).low, (f ne).back);
}

-- From `p`, reached from `prev`, the blocks are `bs` in `m'`, which keeps the words of `m` below `a`.
pub record Freed (prev p a : ℕ) (bs : List Block) (m m' : Memory) : Type 0 where
  pub chain : Chain m' prev p bs
  pub below : (x : ℕ) → x < a → m' x ≡ m x

pub with_next-nil : (c : Block) → with_next c [] ≡ block c.addr c.size true ∷ []
unfolding with_next
with_next-nil c = refl

pub with_next-free :
    (c n : Block) (ns : List Block)
    → n.free ≡ true
    → with_next c (n ∷ ns) ≡ block c.addr (c.size + (24 + n.size)) true ∷ ns
unfolding with_next
with_next-free c n ns free = ground arith

pub with_next-used :
    (c n : Block) (ns : List Block)
    → n.free ≡ false
    → with_next c (n ∷ ns) ≡ block c.addr c.size true ∷ n ∷ ns
unfolding with_next
with_next-used c n ns used = ground arith

pub Freed-cons :
    (b : Block) (bs bs' : List Block) (prev p a : ℕ) (m m' : Memory)
    → Chain m prev p (b ∷ bs)
    → b.addr + 20 ≤ a
    → Freed b.addr (m (next_of b.addr)) a bs' m m'
    → Freed prev p a (b ∷ bs') m m'
Freed-cons b bs bs' prev p a m m' c top g =
    let next = g.below (next_of b.addr) (omega arith) in
    record {
      chain = (
        c.0,
        g.below (magic_of b.addr) (omega arith) ∙ c.1,
        g.below (size_of b.addr) (omega arith) ∙ c.2,
        g.below (free_of b.addr) (omega arith) ∙ c.3,
        g.below (prev_of b.addr) (omega arith) ∙ c.4,
        rw next g.chain,
      );
      below = g.below;
    }

pub In-low : (bs : List Block) (c : Block) (lo hi : ℕ) → Ordered lo bs hi → In c bs → lo ≤ c.addr
In-low [] c lo hi o i = absurd i
In-low (b ∷ bs) c lo hi o (inl e) = rw e o.0
In-low (b ∷ bs) c lo hi o (inr i) = omega (arith, o.0, In-low bs c (b.addr + 20 + b.size) hi o.4 i)

pub mergeable_free :
    (h : Heap) (m : Memory) (b : ℕ)
    → 0 < b
    → h.start ≤ b
    → b < h.end
    → m (free_of b) ≡ 1
    → mergeable h m b ≡ true
unfolding mergeable
mergeable_free h m b pos l r free = ground arith

pub mergeable_used : (h : Heap) (m : Memory) (b : ℕ) → m (free_of b) ≡ 0 → mergeable h m b ≡ false
unfolding mergeable
mergeable_used h m b used = ground arith

pub mergeable_null : (h : Heap) (m : Memory) → mergeable h m 0 ≡ false
unfolding mergeable
mergeable_null h m = refl

abbrev pub marked : ℕ → Memory → Memory
marked a m = write m (free_of a) 1

merge_next-apart :
    (h : Heap) (b : ℕ) (m : Memory) → mergeable h m (m (next_of b)) ≡ false → merge_next h b m ≡ m
unfolding merge_next
merge_next-apart h b m used = rw used

merge_next-absorb :
    (h : Heap) (b : ℕ) (m : Memory)
    → mergeable h m (m (next_of b)) ≡ true
    → merge_next h b m ≡ absorb b m
unfolding merge_next
merge_next-absorb h b m free = rw free

module _ (h : Heap) (low : h.start ≡ kernel_heap_start) (high : h.end ≤ kernel_heap_end) where
  -- Neither the end of the list nor a block in use is merged.
  alone :
      (ys : List Block) (c : Block) (lo : ℕ) (prev : ℕ) (m : Memory)
      → h.start ≤ lo
      → Chain m prev c.addr (c ∷ ys)
      → Ordered lo (c ∷ ys) h.end
      → mergeable h (marked c.addr m) (marked c.addr m (next_of c.addr)) ≡ false
      → Freed prev c.addr c.addr
          (block c.addr c.size true ∷ ys)
          m
          (merge_next h c.addr (marked c.addr m))
  alone ys c lo prev m at ch o used =
      let next = m (next_of c.addr) in
      let g =
        mark-Merged c.addr c.size next m ch.2 refl
          (first ys m c.addr next (c.addr + 20 + c.size) h.end ch.5 o.4) in
      rw (merge_next-apart h c.addr (marked c.addr m) used) (record {
        chain =
            Merged-Chain ys c.addr c.size next prev c.addr (c.addr + 20 + c.size) h.end m
              (marked c.addr m) g ch.1 ch.4 ch.5 (omega arith) o.4;
        below = g.below;
      })

  joined :
      (ns : List Block) (c n : Block) (lo : ℕ) (prev : ℕ) (m : Memory)
      → h.start ≤ lo
      → n.free ≡ true
      → Chain m prev c.addr (c ∷ n ∷ ns)
      → Ordered lo (c ∷ n ∷ ns) h.end
      → Ordered (c.addr + 20 + (c.size + (24 + n.size))) ns h.end
      → Freed prev c.addr c.addr
          (block c.addr (c.size + (24 + n.size)) true ∷ ns)
          m
          (merge_next h c.addr (marked c.addr m))
  joined ns c n lo prev m at free ch o room =
      let m0 = marked c.addr m in
      let next = m (next_of n.addr) in
      let cn = ch.5 in
      let on = o.4 in
      let top : n.addr + 20 + n.size ≤ h.end = lo-le-hi ns (n.addr + 20 + n.size) h.end on.4 in
      let edge : c.addr + 20 + (c.size + (24 + n.size)) ≤ h.end =
        lo-le-hi ns (c.addr + 20 + (c.size + (24 + n.size))) h.end room in
      let free_n : m (free_of n.addr) ≡ 1 = cn.3 ∙ ap flag free in
      let kept : (x : ℕ) → n.addr ≤ x → m0 x ≡ m x = λ x l. ground arith in
      let stay : m0 (next_of c.addr) ≡ n.addr = ground arith in
      let yes_free : m0 (free_of n.addr) ≡ 1 = kept _ (omega arith) ∙ free_n in
      let test = mergeable_free h m0 n.addr (omega arith) (omega arith) (omega arith) yes_free in
      let rest : Chain m0 n.addr next ns =
        Chain-frame ns m m0 n.addr next (n.addr + 20 + n.size) h.end on.4
          (λ x l r. kept x (omega arith)) cn.5 in
      let f = first ns m0 n.addr next (c.addr + 20 + (c.size + (24 + n.size))) h.end rest room in
      let g =
        absorb-Merged m0 c.addr c.size n.addr n.size next (ground arith)
          (kept _ (omega arith) ∙ cn.2) (kept _ (omega arith)) (ground arith) on.0 (omega arith)
          (omega arith) (λ ne. ((f ne).low, (f ne).magic)) stay in
      rw (merge_next-absorb h c.addr m0 (rw stay test)) (record {
        chain =
            Merged-Chain ns c.addr (c.size + (24 + n.size)) next prev n.addr
              (c.addr + 20 + (c.size + (24 + n.size))) h.end m0 (absorb c.addr m0) g (ground arith)
              (ground arith) rest (omega arith) room;
        below = λ x l. g.below x l ∙ (ground arith);
      })

  with_next-Freed :
      (ys : List Block) (c : Block) (lo : ℕ) (prev : ℕ) (m : Memory)
      → h.start ≤ lo
      → Chain m prev c.addr (c ∷ ys)
      → Ordered lo (c ∷ ys) h.end
      → Ordered lo (with_next c ys) h.end
      → Freed prev c.addr c.addr (with_next c ys) m (merge_next h c.addr (marked c.addr m))
  with_next-Freed [] c lo prev m at ch o room =
      let e : marked c.addr m (next_of c.addr) ≡ 0 = ground (arith, ch.5) in
      rw (with_next-nil c)
        (alone [] c lo prev m at ch o (rw e (mergeable_null h (marked c.addr m))))
  with_next-Freed (n ∷ ns) c lo prev m at ch o room = elim (Bool-cases n.free) [
    | inl free ↦
        let e = with_next-free c n ns free in
        rw e (joined ns c n lo prev m at free ch o (rw e at room).4)
    | inr used ↦
        let e : marked c.addr m (next_of c.addr) ≡ n.addr = ground (arith, ch.5.0) in
        let z : marked c.addr m (free_of n.addr) ≡ 0 =
          ground (arith, ch.5.3, ap flag used, o.4.0) in
        rw (with_next-used c n ns used)
          (alone (n ∷ ns) c lo prev m at ch o (rw e (mergeable_used h (marked c.addr m) n.addr z)))
  ]

  -- `kfree` turns the block into a free one, and merges it with a free block behind it.
  pub free_next-Freed :
      (bs : List Block) (c : Block) (prev p lo : ℕ) (m : Memory)
      → h.start ≤ lo
      → Chain m prev p bs
      → Ordered lo bs h.end
      → In c bs
      → Ordered lo (free_next c.addr bs) h.end
      → Freed prev p c.addr (free_next c.addr bs) m (merge_next h c.addr (marked c.addr m))
  unfolding free_next
  free_next-Freed [] c prev p lo m at ch o i room = absurd i
  free_next-Freed (b ∷ bs) c prev p lo m at ch o (inl e) room =
      let self : (b.addr == c.addr) ≡ true = rw e (==_self b.addr) in
      rw (self, free_next, e, ch.0)
        (with_next-Freed bs b lo prev m at (rw ch.0 at ch) o (rw (self, free_next) at room))
  free_next-Freed (b ∷ bs) c prev p lo m at ch o (inr i) room =
      let far = In-low bs c (b.addr + 20 + b.size) h.end o.4 i in
      let other : (b.addr == c.addr) ≡ false = ground arith in
      rw (other, free_next)
        (Freed-cons b bs (free_next c.addr bs) prev p c.addr m _ ch (omega arith) (
          free_next-Freed bs c b.addr (m (next_of b.addr)) (b.addr + 20 + b.size) m
            (omega (arith, o.0)) ch.5 o.4 i (rw (other, free_next) at room).4))
