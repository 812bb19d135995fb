-- ===== src/Heap/Alloc/Find.antt =====
-- The search loop of `kmalloc` against `first_fit`.
use sometuffcoolpr.Heap.Alloc.Taken.{take-first}
use sometuffcoolpr.Prelude.{
  ℕ, zero, suc, ◌+◌, ◌%◌, ◌≤◌, ◌<◌, ◌≡◌, ◌≢◌, ◌⊎◌, inl, inr, ◌∙◌, true, false, ◌&&◌, none, some,
  List, [], ◌∷◌, ◌++◌, arith, leb, Bool-cases, length,
}
use sometuffcoolpr.Prelude.Memory.{Memory}
use sometuffcoolpr.Heap.{
  take_block, search, fits, last, kernel_heap_end, magic_of, size_of, free_of, next_of, prev_of,
}
use sometuffcoolpr.Heap.Blocks.{Block, Chain, Ordered, lo-le-hi, fit, first_fit}

-- The outcome of the search over a chain.
pub record Hit (size k : ℕ) (m : Memory) (prev p lo hi : ℕ) (bs : List Block) : Type 0 where
  pub at : ℕ
  pub blocks : List Block
  pub found : search k m size p ≡ some (fits at)
  pub first : first_fit size bs ≡ some (at + 20, blocks)
  pub chain : Chain (take_block size at m) prev p blocks
  pub ordered : Ordered lo blocks hi
  pub below : (x : ℕ) → x < lo → take_block size at m x ≡ m x
  pub within : at + 20 ≤ hi
  pub above : lo ≤ at

pub record Miss (size k : ℕ) (m : Memory) (prev p lo hi : ℕ) (bs : List Block) : Type 0 where
  pub at : ℕ
  pub found : search k m size p ≡ some (last at)
  pub first : first_fit size bs ≡ none
  pub within : at + 20 ≤ hi
  pub above : lo ≤ at
  pub extend :
      (m' : Memory) (n : ℕ) (new : Block)
      → ((x : ℕ) → lo ≤ x → x < hi → x ≢ next_of at → m' x ≡ m x)
      → m' (next_of at) ≡ n
      → Chain m' at n (new ∷ [])
      → Chain m' prev p (bs ++ (new ∷ []))

Hit-first :
    (size k prev p lo hi : ℕ) (m : Memory) (b : Block) (bs : List Block)
    → 0 < size
    → size % 8 ≡ 0
    → 0 < lo
    → hi ≤ kernel_heap_end
    → Chain m prev p (b ∷ bs)
    → Ordered lo (b ∷ bs) hi
    → (b.free && leb size b.size) ≡ true
    → Hit size (suc k) m prev p lo hi (b ∷ bs)
unfolding search first_fit
Hit-first size k prev p lo hi m b bs pos mult low high c o good =
    let top : b.addr + 20 + b.size ≤ hi = lo-le-hi bs (b.addr + 20 + b.size) hi o.4 in
    let (chain, ordered, below) =
      take-first size prev p lo hi m b bs pos mult low high c o (ground arith) in
    record {
      at = b.addr;
      blocks = fit size b bs;
      found = ground arith;
      first = rw good;
      chain = chain;
      ordered = ordered;
      below = below;
      within = omega arith;
      above = o.0;
    }

Hit-later :
    (size k prev p lo hi : ℕ) (m : Memory) (b c : Block) (bs : List Block)
    → Chain m prev p (b ∷ c ∷ bs)
    → Ordered lo (b ∷ c ∷ bs) hi
    → 0 < lo
    → (b.free && leb size b.size) ≡ false
    → Hit size k m b.addr (m (next_of b.addr)) (b.addr + 20 + b.size) hi (c ∷ bs)
    → Hit size (suc k) m prev p lo hi (b ∷ c ∷ bs)
unfolding search first_fit
Hit-later size k prev p lo hi m b c bs ch o low bad h =
    let same = h.below in
    let e : take_block size h.at m (next_of b.addr) ≡ m (next_of b.addr) =
      same (next_of b.addr) (omega arith) in
    record {
      at = h.at;
      blocks = b ∷ h.blocks;
      found = ground (arith, h.found);
      first = rw (bad, h.first, first_fit);
      chain = (
        ch.0,
        same (magic_of b.addr) (omega arith) ∙ ch.1,
        same (size_of b.addr) (omega arith) ∙ ch.2,
        same (free_of b.addr) (omega arith) ∙ ch.3,
        same (prev_of b.addr) (omega arith) ∙ ch.4,
        rw e h.chain,
      );
      ordered = (o.0, o.1, o.2, o.3, h.ordered);
      below = λ x lt. same x (omega arith);
      within = h.within;
      above = omega (arith, h.above);
    }

Miss-last :
    (size k prev p lo hi : ℕ) (m : Memory) (b : Block)
    → 0 < lo
    → Chain m prev p (b ∷ [])
    → Ordered lo (b ∷ []) hi
    → (b.free && leb size b.size) ≡ false
    → Miss size (suc k) m prev p lo hi (b ∷ [])
unfolding search first_fit
Miss-last size k prev p lo hi m b low c o bad = record {
  at = b.addr;
  found = ground arith;
  first = rw bad;
  within = omega (arith, o.4);
  above = o.0;
  extend = λ m' n new same link rest.
      let top : b.addr + 20 + b.size ≤ hi = o.4 in
      (
        c.0,
        same (magic_of b.addr) (omega arith) (omega arith) (omega arith) ∙ c.1,
        same (size_of b.addr) (omega arith) (omega arith) (omega arith) ∙ c.2,
        same (free_of b.addr) (omega arith) (omega arith) (omega arith) ∙ c.3,
        same (prev_of b.addr) (omega arith) (omega arith) (omega arith) ∙ c.4,
        (link ∙ rest.0, rest.1, rest.2, rest.3, rest.4, rest.5),
      );
}

Miss-later :
    (size k prev p lo hi : ℕ) (m : Memory) (b c : Block) (bs : List Block)
    → Chain m prev p (b ∷ c ∷ bs)
    → Ordered lo (b ∷ c ∷ bs) hi
    → 0 < lo
    → (b.free && leb size b.size) ≡ false
    → Miss size k m b.addr (m (next_of b.addr)) (b.addr + 20 + b.size) hi (c ∷ bs)
    → Miss size (suc k) m prev p lo hi (b ∷ c ∷ bs)
unfolding search first_fit
Miss-later size k prev p lo hi m b c bs ch o low bad h = record {
  at = h.at;
  found = ground (arith, h.found);
  first = rw (bad, h.first, first_fit);
  within = h.within;
  above = omega (arith, h.above);
  extend = λ m' n new same link rest.
      let far : b.addr + 20 + b.size ≤ h.at = h.above in
      let top : h.at + 20 ≤ hi = h.within in
      let e : m' (next_of b.addr) ≡ m (next_of b.addr) =
        same (next_of b.addr) (omega arith) (omega arith) (omega arith) in
      (
        ch.0,
        same (magic_of b.addr) (omega arith) (omega arith) (omega arith) ∙ ch.1,
        same (size_of b.addr) (omega arith) (omega arith) (omega arith) ∙ ch.2,
        same (free_of b.addr) (omega arith) (omega arith) (omega arith) ∙ ch.3,
        same (prev_of b.addr) (omega arith) (omega arith) (omega arith) ∙ ch.4,
        rw e (h.extend m' n new (λ x l r ne. same x (omega arith) r ne) link rest),
      );
}

-- With fuel for every block the search ends: at the block that `first_fit` takes, or at the last
-- block if `first_fit` takes none.
pub search-first_fit :
    (size k prev p lo hi : ℕ) (m : Memory) (b : Block) (bs : List Block)
    → 0 < size
    → size % 8 ≡ 0
    → 0 < lo
    → hi ≤ kernel_heap_end
    → Chain m prev p (b ∷ bs)
    → Ordered lo (b ∷ bs) hi
    → length bs < k
    → Hit size k m prev p lo hi (b ∷ bs) ⊎ Miss size k m prev p lo hi (b ∷ bs)
search-first_fit size zero prev p lo hi m b bs pos mult low high c o fuel = absurd (omega arith)
search-first_fit size (suc k) prev p lo hi m b [] pos mult low high c o fuel =
    elim (Bool-cases (b.free && leb size b.size)) [
      | inl good ↦ inl (Hit-first size k prev p lo hi m b [] pos mult low high c o good)
      | inr bad ↦ inr (Miss-last size k prev p lo hi m b low c o bad)
    ]
search-first_fit size (suc k) prev p lo hi m b (b' ∷ bs) pos mult low high c o fuel =
    elim (Bool-cases (b.free && leb size b.size)) [
      | inl good ↦ inl (Hit-first size k prev p lo hi m b (b' ∷ bs) pos mult low high c o good)
      | inr bad ↦
          elim (search-first_fit size k b.addr (m (next_of b.addr)) (b.addr + 20 + b.size) hi m b'
            bs pos mult (omega arith) high c.5 o.4 (omega arith)) [
              | inl h ↦ inl (Hit-later size k prev p lo hi m b b' bs c o low bad h)
              | inr h ↦ inr (Miss-later size k prev p lo hi m b b' bs c o low bad h)
            ]
    ]
