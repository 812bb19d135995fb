-- ===== src/Heap/Alloc/Gives.antt =====
-- What a client of `kmalloc` gets: a block of its own.
use sometuffcoolpr.Prelude.{
  ℕ, ◌+◌, ◌-◌, ◌*◌, ◌/◌, ◌^◌, ◌≤◌, ◌<◌, ◌≡◌, ◌⊎◌, inl, inr, refl, sym, subst, true, false, ◌&&◌,
  ◌||◌, none, some, List, [], ◌∷◌, ◌++◌, arith, ltb, leb, ◌==◌, if◌then◌else◌, Bool-cases, length,
}
use native.Mathlib.Nat.{le_refl}
use sometuffcoolpr.Heap.{Heap, kmalloc, kernel_heap_end}
use sometuffcoolpr.Heap.Alloc.{kmalloc-Refines}
use sometuffcoolpr.Heap.Blocks.{Wf, Block, block, first_fit, fit, In}
use sometuffcoolpr.Heap.Alloc.Policy.{Outcome, grow, serve, request, largest}

-- The address returned is the payload of a block in use of at least `size` bytes, and every block
-- that was in use still is, with its address and size.
pub record Gives (size p : ℕ) (bs bs' : List Block) : Type 0 where
  pub at : ℕ
  pub room : ℕ
  pub address : p ≡ at + 20
  pub enough : size ≤ room
  pub mine : In (block at room false) bs'
  pub kept : (c : Block) → c.free ≡ false → In c bs → In c bs'

fit-Gives :
    (size : ℕ) (b : Block) (bs : List Block)
    → b.free ≡ true
    → size ≤ b.size
    → Gives size (b.addr + 20) (b ∷ bs) (fit size b bs)
unfolding fit
fit-Gives size b bs free room = elim (Bool-cases (leb (size + 32) b.size)) [
  | inl cut ↦ rw cut (record {
    at = b.addr;
    room = size;
    address = refl;
    enough = omega arith;
    mine = inl refl;
    kept = λ c used. elim [ inl e ↦ cc | inr i ↦ inr (inr i) ];
  })
  | inr whole ↦ rw whole (record {
    at = b.addr;
    room = b.size;
    address = refl;
    enough = room;
    mine = inl refl;
    kept = λ c used. elim [ inl e ↦ cc | inr i ↦ inr i ];
  })
]

later-Gives :
    (size p : ℕ) (b : Block) (bs bs' : List Block)
    → Gives size p bs bs'
    → Gives size p (b ∷ bs) (b ∷ bs')
later-Gives size p b bs bs' g = record {
  at = g.at;
  room = g.room;
  address = g.address;
  enough = g.enough;
  mine = inr g.mine;
  kept = λ c used. elim [ inl e ↦ inl e | inr i ↦ inr (g.kept c used i) ];
}

first_fit-Gives :
    (size : ℕ) (bs : List Block)
    → (first_fit size bs ≡ none)
      ⊎ ((p : ℕ) × (bs' : List Block) × (first_fit size bs ≡ some (p, bs')) × Gives size p bs bs')
unfolding first_fit
first_fit-Gives size [] = inl refl
first_fit-Gives size (b ∷ bs) = elim (Bool-cases (b.free && leb size b.size)) [
  | inl good ↦
      rw good
        (inr (b.addr + 20, fit size b bs, refl, fit-Gives size b bs (ground arith) (ground arith)))
  | inr bad ↦ rw bad (elim (first_fit-Gives size bs) [
    | inl e ↦ inl (rw (e, first_fit))
    | inr (p, bs', e, g) ↦ inr (p, b ∷ bs', rw (e, first_fit), later-Gives size p b bs bs' g)
  ])
]

In-append_left : (c : Block) (bs cs : List Block) → In c bs → In c (bs ++ cs)
In-append_left c [] cs i = absurd i
In-append_left c (b ∷ bs) cs (inl e) = inl e
In-append_left c (b ∷ bs) cs (inr i) = inr (In-append_left c bs cs i)

In-append_right : (c : Block) (bs cs : List Block) → In c cs → In c (bs ++ cs)
In-append_right c [] cs i = i
In-append_right c (b ∷ bs) cs i = inr (In-append_right c bs cs i)

-- An outcome is a refusal that changes nothing, or it gives room.
abbrev Answers : ℕ → List Block → ℕ → Outcome → Type 0
Answers size bs end (p, bs', end') = ((p ≡ 0) × (bs' ≡ bs) × (end' ≡ end)) ⊎ Gives size p bs bs'

grow-Answers : (size : ℕ) (bs : List Block) (end : ℕ) → Answers size bs end (grow size bs end)
unfolding grow
grow-Answers size bs end =
    elim (Bool-cases
      (leb kernel_heap_end (end + (if length bs == 0 then 20 + size else 24 + size)))) [
        | inl full ↦ rw full (inl (refl, refl, refl))
        | inr room ↦ rw room (
            inr (record {
              at = end;
              room = size;
              address = refl;
              enough = le_refl size;
              mine = In-append_right _ bs _ (inl refl);
              kept = λ c used i. In-append_left c bs _ i;
            }))
      ]

serve-Answers : (size : ℕ) (bs : List Block) (end : ℕ) → Answers size bs end (serve size bs end)
unfolding serve
serve-Answers size bs end = elim (first_fit-Gives size bs) [
  | inl e ↦ rw (e, serve) (grow-Answers size bs end)
  | inr (p, bs', e, g) ↦ rw (e, serve) (inr g)
]

weaken :
    (size rounded p : ℕ) (bs bs' : List Block)
    → size ≤ rounded
    → Gives rounded p bs bs'
    → Gives size p bs bs'
weaken size rounded p bs bs' le g = record {
  at = g.at;
  room = g.room;
  address = g.address;
  enough = omega (arith, g.enough);
  mine = g.mine;
  kept = g.kept;
}

request-Answers : (size : ℕ) (bs : List Block) (end : ℕ) → Answers size bs end (request size bs end)
unfolding request
request-Answers size bs end =
    elim (Bool-cases
      (size == 0 || (ltb (2 ^ 32 - 8) size || ltb (largest end) ((size + 7) / 8 * 8)))) [
        | inl refused ↦ rw refused (inl (refl, refl, refl))
        | inr tried ↦ rw tried (answer (serve-Answers ((size + 7) / 8 * 8) bs end))
      ]
  where
    answer :
        Answers ((size + 7) / 8 * 8) bs end (serve ((size + 7) / 8 * 8) bs end)
        → Answers size bs end (serve ((size + 7) / 8 * 8) bs end)
    answer (inl r) = inl r
    answer (inr g) = inr (weaken size _ _ bs _ (omega arith) g)

-- On a well-formed heap, `kmalloc` with fuel for the list ends in a well-formed heap. It returns
-- NULL and the list and the end stay as they were, or it returns the payload of a block in use of
-- at least the size asked for, and every block that was in use is still there, with its address and
-- size. (Well-formed blocks do not overlap. Requests above 2 ^ 32 - 32 bytes are excluded.)
pub kmalloc-Gives :
    (fuel size : ℕ) (h : Heap) (bs : List Block)
    → size ≤ 2 ^ 32 - 32
    → Wf h bs
    → length bs < fuel
    → (p : ℕ) × (h' : Heap) × (bs' : List Block) × (kmalloc fuel size h ≡ some (p, h'))
      × Wf h' bs'
      × (((p ≡ 0) × (bs' ≡ bs) × (h'.end ≡ h.end)) ⊎ Gives size p bs bs')
kmalloc-Gives fuel size h bs small w enough =
    let r = kmalloc-Refines fuel size h bs small w enough in
    let (p, bs', end') = request size bs h.end in
    (
      p,
      r.heap,
      bs',
      r.result,
      r.wf,
      subst (λ (e : ℕ). ((p ≡ 0) × (bs' ≡ bs) × (e ≡ h.end)) ⊎ Gives size p bs bs') (sym r.ends)
          (request-Answers size bs h.end),
    )
