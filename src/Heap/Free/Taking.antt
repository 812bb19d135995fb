-- ===== src/Heap/Free/Taking.antt =====
-- The block of src/kernel/mm/heap.c that a first-fit allocation takes, and the list that gives it
-- back.
use sometuffcoolpr.Prelude.{
  ℕ, ◌+◌, ◌-◌, ◌≤◌, ◌≡◌, ◌≢◌, ◌⊎◌, inl, inr, ◌∙◌, ap, arith, leb, ◌&&◌, List, [], ◌∷◌, true, false,
  refl, Bool-cases, ==_self, none, some, sym,
}
use sometuffcoolpr.Heap.Blocks.{Block, block, Ordered, fit, first_fit}
use sometuffcoolpr.Heap.Free.Policy.{with_next, free_next}
use sometuffcoolpr.Heap.Free.Next.{with_next-nil, with_next-free, with_next-used}
use sometuffcoolpr.Heap.Free.Prev.{FreeAt}

-- No two neighbours are both free.
abbrev pub Coalesced : List Block → Type 0
Coalesced [] = Unit {0}
Coalesced (b ∷ []) = Unit {0}
Coalesced (b ∷ n ∷ ns) = (b.free ≡ true → n.free ≡ false) × Coalesced (n ∷ ns)

tail-Coalesced : (b : Block) (bs : List Block) → Coalesced (b ∷ bs) → Coalesced bs
tail-Coalesced b [] c = tt
tail-Coalesced b (n ∷ ns) c = c.1

free_next-here : (b : Block) (bs : List Block) → free_next b.addr (b ∷ bs) ≡ with_next b bs
unfolding free_next
free_next-here b bs = rw (==_self b.addr) refl

free_next-later :
    (a : ℕ) (b : Block) (bs : List Block) → b.addr ≢ a → free_next a (b ∷ bs) ≡ b ∷ free_next a bs
unfolding free_next
free_next-later a b bs ne = ground arith

fit-cut :
    (size : ℕ) (b : Block) (bs : List Block)
    → leb (size + 32) b.size ≡ true
    → fit size b bs
      ≡ block b.addr size false ∷ block (b.addr + 20 + size) (b.size - size - 24) true ∷ bs
unfolding fit
fit-cut size b bs cut = rw cut refl

fit-whole :
    (size : ℕ) (b : Block) (bs : List Block)
    → leb (size + 32) b.size ≡ false
    → fit size b bs ≡ block b.addr b.size false ∷ bs
unfolding fit
fit-whole size b bs whole = rw whole refl

with_next-alone :
    (b : Block) (bs : List Block)
    → b.free ≡ true
    → Coalesced (b ∷ bs)
    → with_next (block b.addr b.size false) bs ≡ b ∷ bs
with_next-alone b [] free c =
    with_next-nil (block b.addr b.size false) ∙ ap (λ f. block b.addr b.size f ∷ []) (sym free)
with_next-alone b (n ∷ ns) free c =
    with_next-used (block b.addr b.size false) n ns (c.0 free)
    ∙ ap (λ f. block b.addr b.size f ∷ n ∷ ns) (sym free)

-- What was cut from a free block joins it again.
fit-restored :
    (size : ℕ) (b : Block) (bs : List Block)
    → b.free ≡ true
    → Coalesced (b ∷ bs)
    → free_next b.addr (fit size b bs) ≡ b ∷ bs
fit-restored size b bs free c = elim (Bool-cases (leb (size + 32) b.size)) [
  | inl cut ↦
      let back : size + (24 + (b.size - size - 24)) ≡ b.size = ground arith in
      rw (fit-cut size b bs cut, free_next-here (block b.addr size false))
        (with_next-free (block b.addr size false) _ bs refl
          ∙ ap (λ n. block b.addr n true ∷ bs) back
          ∙ ap (λ f. block b.addr b.size f ∷ bs) (sym free))
  | inr whole ↦
      rw (fit-whole size b bs whole, free_next-here (block b.addr b.size false))
        (with_next-alone b bs free c)
]

-- A block that `first_fit` takes, and the list behind it.
pub record Taken (size lo : ℕ) (bs : List Block) : Type 0 where
  pub at : ℕ
  pub list : List Block
  pub found : first_fit size bs ≡ some (at + 20, list)
  pub restored : free_next at list ≡ bs
  pub free : FreeAt at bs
  pub low : lo ≤ at

fit-Taken :
    (size lo hi : ℕ) (b : Block) (bs : List Block)
    → (b.free && leb size b.size) ≡ true
    → Coalesced (b ∷ bs)
    → Ordered lo (b ∷ bs) hi
    → Taken size lo (b ∷ bs)
unfolding first_fit
fit-Taken size lo hi b bs good c o = record {
  at = b.addr;
  list = fit size b bs;
  found = rw good refl;
  restored = fit-restored size b bs (ground arith) c;
  free = inl (refl, ground arith);
  low = o.0;
}

pub first_fit-Taken :
    (size lo hi : ℕ) (bs : List Block)
    → Coalesced bs
    → Ordered lo bs hi
    → (first_fit size bs ≡ none) ⊎ Taken size lo bs
unfolding first_fit
first_fit-Taken size lo hi [] c o = inl refl
first_fit-Taken size lo hi (b ∷ bs) c o = elim (Bool-cases (b.free && leb size b.size)) [
  | inl good ↦ inr (fit-Taken size lo hi b bs good c o)
  | inr bad ↦ elim (first_fit-Taken size (b.addr + 20 + b.size) hi bs (tail-Coalesced b bs c) o.4) [
    | inl e ↦ inl (rw (bad, e, first_fit))
    | inr t ↦ inr (record {
      at = t.at;
      list = b ∷ t.list;
      found = rw (bad, t.found, first_fit);
      restored =
          free_next-later t.at b t.list (λ e. omega (arith, t.low)) ∙ ap (λ l. b ∷ l) t.restored;
      free = inr (λ e. omega (arith, t.low), t.free);
      low = omega (arith, o.0, t.low);
    })
  ]
]
