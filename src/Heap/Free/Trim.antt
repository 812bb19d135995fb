-- ===== src/Heap/Free/Trim.antt =====
-- The end of `kfree` of mm/heap.c: the heap is emptied, or its end falls to a free last block.
use sometuffcoolpr.Prelude.{
  ℕ, zero, suc, ◌+◌, ◌%◌, ◌≤◌, ◌<◌, ◌≡◌, ◌≢◌, ◌⊎◌, inl, inr, ◌∙◌, ap, arith, List, [], ◌∷◌, true,
  false, refl, Bool-cases, Option, some, length, sym,
}
use sometuffcoolpr.Prelude.Memory.{Memory}
use sometuffcoolpr.Heap.{
  Heap, trim, walk_last, kernel_heap_start, kernel_heap_end, free_of, next_of,
}
use sometuffcoolpr.Heap.Blocks.{Block, flag, Chain, Ordered, Wf}
use sometuffcoolpr.Heap.Free.Policy.{settle, end_after}

abbrev pub LastUsed : List Block → Type 0
LastUsed [] = Unit {0}
LastUsed (b ∷ []) = b.free ≡ false
LastUsed (b ∷ c ∷ bs) = LastUsed (c ∷ bs)

-- Where the walk to the last block ends.
record Ends (r : Option ℕ) (m : Memory) (bs : List Block) (end : ℕ) : Type 0 where
  at : ℕ
  found : r ≡ some at
  positive : 0 < at
  last :
      ((m (free_of at) ≡ 0) × (end_after bs end ≡ end))
      ⊎ ((m (free_of at) ≡ 1) × (end_after bs end ≡ at))

walk_last-Ends :
    (bs : List Block) (b : Block) (k : ℕ) (m : Memory) (prev p lo hi end : ℕ)
    → 0 < lo
    → Chain m prev p (b ∷ bs)
    → Ordered lo (b ∷ bs) hi
    → length bs < k
    → Ends (walk_last k m p) m (b ∷ bs) end
unfolding walk_last end_after
walk_last-Ends bs b zero m prev p lo hi end pos c o enough = absurd (omega arith)
walk_last-Ends [] b (suc k) m prev p lo hi end pos c o enough = record {
  at = b.addr;
  found = ground (arith, c.0, c.5, o.0);
  positive = omega (arith, o.0);
  last = elim (Bool-cases b.free) [
    | inl free ↦ inr (c.3 ∙ ap flag free, ground arith)
    | inr used ↦ inl (c.3 ∙ ap flag used, ground arith)
  ];
}
walk_last-Ends (n ∷ ns) b (suc k) m prev p lo hi end pos c o enough =
    let r =
      walk_last-Ends ns n k m b.addr (m (next_of b.addr)) (b.addr + 20 + b.size) hi end
        (omega arith) c.5 o.4 (omega arith) in
    record {
      at = r.at;
      found = ground (arith, r.found, c.0, c.5.0, o.0, o.4.0);
      positive = r.positive;
      last = r.last;
    }

-- The end of `kfree`.
pub record Settles (r : Option Heap) (h : Heap) (o : List Block × ℕ) : Type 0 where
  pub heap : Heap
  pub result : r ≡ some heap
  pub same : heap.mem ≡ h.mem
  pub start : heap.start ≡ h.start
  pub ends : heap.end ≡ o.1
  pub chain : Chain heap.mem 0 heap.head o.0

trim-resets :
    (k : ℕ) (h : Heap)
    → 0 < h.head
    → h.mem (free_of h.head) ≡ 1
    → h.mem (next_of h.head) ≡ 0
    → trim k h ≡ some (record h { end = h.start; head = 0 })
unfolding trim
trim-resets k h some_block free alone = ground arith

trim-walks :
    (k at e : ℕ) (h : Heap)
    → (h.mem (free_of h.head) ≡ 0) ⊎ (h.mem (next_of h.head) ≢ 0)
    → walk_last k h.mem h.head ≡ some at
    → 0 < at
    → ((h.mem (free_of at) ≡ 0) × (e ≡ h.end)) ⊎ ((h.mem (free_of at) ≡ 1) × (e ≡ at))
    → trim k h ≡ some (record h { end = e })
unfolding trim
trim-walks k at e h other found pos (inl (used, same)) = rw same (ground arith)
trim-walks k at e h other found pos (inr (free, moved)) = rw moved (ground arith)

trim-nil : (k : ℕ) (h : Heap) → h.head ≡ 0 → trim (suc k) h ≡ some h
unfolding trim walk_last
trim-nil k h e = ground arith

walk_last-one :
    (k : ℕ) (m : Memory) (p a : ℕ)
    → 0 < k
    → p ≡ a
    → 0 < p
    → m (next_of p) ≡ 0
    → walk_last k m p ≡ some a
unfolding walk_last
walk_last-one zero m p a enough e pos n = absurd (omega arith)
walk_last-one (suc k) m p a enough e pos n = ground arith

settle-free : (b : Block) (end : ℕ) → b.free ≡ true → settle (b ∷ []) end ≡ ([], kernel_heap_start)
unfolding settle
settle-free b end free = ground arith

settle-used : (b : Block) (end : ℕ) → b.free ≡ false → settle (b ∷ []) end ≡ (b ∷ [], end)
unfolding settle
settle-used b end used = ground arith

pub trim-Settles :
    (bs : List Block) (k : ℕ) (h : Heap) (lo hi : ℕ)
    → h.start ≡ kernel_heap_start
    → 0 < lo
    → Chain h.mem 0 h.head bs
    → Ordered lo bs hi
    → length bs < k
    → Settles (trim k h) h (settle bs h.end)
unfolding settle
trim-Settles [] zero h lo hi s pos c o enough = absurd (omega arith)
trim-Settles [] (suc k) h lo hi s pos c o enough =
    rw (trim-nil k h c)
      (record { heap = h; result = refl; same = refl; start = refl; ends = refl; chain = c })
trim-Settles (b ∷ []) k h lo hi s pos c o enough =
    let at_head : h.mem (free_of h.head) ≡ flag b.free = ap (λ x. h.mem (free_of x)) c.0 ∙ c.3 in
    let behind : h.mem (next_of h.head) ≡ 0 = ap (λ x. h.mem (next_of x)) c.0 ∙ c.5 in
    elim (Bool-cases b.free) [
      | inl free ↦
          rw
            (
              settle-free b h.end free,
              trim-resets k h (omega (arith, c.0, o.0)) (at_head ∙ ap flag free) behind,
            )
            (record {
              heap = record h { end = h.start; head = 0 };
              result = refl;
              same = refl;
              start = refl;
              ends = s;
              chain = refl;
            })
      | inr used ↦
          rw
            (
              settle-used b h.end used,
              trim-walks k b.addr h.end h (inl (at_head ∙ ap flag used))
                  (walk_last-one k h.mem h.head b.addr (omega arith) c.0 (omega (arith, c.0, o.0))
                    behind)
                  (omega (arith, o.0)) (inl (c.3 ∙ ap flag used, refl)),
            )
            (record { heap = h; result = refl; same = refl; start = refl; ends = refl; chain = c })
    ]
trim-Settles (b ∷ n ∷ ns) k h lo hi s pos c o enough =
    let r = walk_last-Ends (n ∷ ns) b k h.mem 0 h.head lo hi h.end pos c o (omega arith) in
    let behind : h.mem (next_of h.head) ≡ h.mem (next_of b.addr) =
      ap (λ x. h.mem (next_of x)) c.0 in
    rw
      (trim-walks k r.at (end_after (b ∷ n ∷ ns) h.end) h
        (inr (λ z. omega (arith, c.5.0, behind, z, o.4.0))) r.found r.positive r.last)
      (record {
        heap = record h { end = end_after (b ∷ n ∷ ns) h.end };
        result = refl;
        same = refl;
        start = refl;
        ends = refl;
        chain = c;
      })

end_after-used :
    (bs : List Block) (b : Block) (end : ℕ) → LastUsed (b ∷ bs) → end_after (b ∷ bs) end ≡ end
unfolding end_after
end_after-used [] b end used = rw used refl
end_after-used (n ∷ ns) b end used = end_after-used ns n end used

settle-more :
    (b n : Block) (ns : List Block) (end : ℕ)
    → LastUsed (settle (b ∷ n ∷ ns) end).0
    → settle (b ∷ n ∷ ns) end ≡ (b ∷ n ∷ ns, end)
unfolding settle
settle-more b n ns end used = rw (end_after-used ns n end used) refl

-- A list and an end that a well-formed heap can have.
pub record Sound (o : List Block × ℕ) : Type 0 where
  pub below : o.1 ≤ kernel_heap_end
  pub aligned : o.1 % 4 ≡ 0
  pub ordered : Ordered kernel_heap_start o.0 o.1
  pub reset : o.0 ≡ [] → o.1 ≡ kernel_heap_start

pub settle-Sound :
    (bs : List Block) (end : ℕ)
    → end ≤ kernel_heap_end
    → end % 4 ≡ 0
    → Ordered kernel_heap_start bs end
    → bs ≢ []
    → LastUsed (settle bs end).0
    → Sound (settle bs end)
settle-Sound [] end below aligned o ne used = absurd (ne refl)
settle-Sound (b ∷ []) end below aligned o ne used = elim (Bool-cases b.free) [
  | inl free ↦ rw (settle-free b end free) (record {
    below = omega arith;
    aligned = omega arith;
    ordered = omega arith;
    reset = λ q. refl;
  })
  | inr taken ↦
      rw (settle-used b end taken)
        (record { below = below; aligned = aligned; ordered = o; reset = λ q. cc })
]
settle-Sound (b ∷ n ∷ ns) end below aligned o ne used =
    let e = settle-more b n ns end used in
    rw e (record { below = below; aligned = aligned; ordered = o; reset = λ q. cc })

-- With its last block in use, the heap that `trim` leaves is well formed.
pub settled-Wf :
    (o : List Block × ℕ) (r : Option Heap) (h : Heap) (s : Settles r h o)
    → h.start ≡ kernel_heap_start
    → Sound o
    → Wf s.heap o.0
settled-Wf o r h s start sound =
    let begins = s.start ∙ start in
    record {
      at_start = begins;
      below = rw s.ends sound.below;
      aligned = rw s.ends sound.aligned;
      chain = s.chain;
      ordered = rw (begins, s.ends) sound.ordered;
      reset = λ q. s.ends ∙ (sound.reset q ∙ sym begins);
    }

-- Nothing is trimmed behind a last block in use.
pub settle-LastUsed : (bs : List Block) (end : ℕ) → LastUsed bs → settle bs end ≡ (bs, end)
unfolding settle
settle-LastUsed [] end used = refl
settle-LastUsed (b ∷ []) end used = ground arith
settle-LastUsed (b ∷ n ∷ ns) end used = rw (end_after-used ns n end used) refl
