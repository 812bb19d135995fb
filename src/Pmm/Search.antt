-- ===== src/Pmm/Search.antt =====
-- The bits of the bitmap of src/kernel/mm/pmm.c, and the search for a clear one.
use sometuffcoolpr.Prelude.{
  ℕ, zero, suc, ◌+◌, ◌*◌, ◌/◌, ◌%◌, ◌≤◌, ◌<◌, ◌≡◌, refl, Bool, true, false, Option, none, some,
  arith, ◌==◌, if◌then◌else◌, Bool-cases, inl, inr, ==_eq,
}
use sometuffcoolpr.Prelude.Int.{ℤ, pos, negsuc}
use sometuffcoolpr.Pmm.{
  Bitmap, set_frame, clear_frame, some_clear, first_clear, not_full, free_bit, first_free_from,
}

-- The frame's bit.
abbrev pub in_use : Bitmap → ℕ → Bool
in_use b f = b (f / 32) (f % 32)

abbrev Clear : (n j : ℕ) → (ℕ → Bool) → Option ℕ → Type 0
Clear n j word none = (k : ℕ) → j ≤ k → k < j + n → word k ≡ true
Clear n j word (some d) =
    (j ≤ d) × (d < j + n) × (word d ≡ false) × ((k : ℕ) → j ≤ k → k < d → word k ≡ true)

Clear-skip :
    (n j : ℕ) (word : ℕ → Bool) (r : Option ℕ)
    → word j ≡ true
    → Clear n (j + 1) word r
    → Clear (suc n) j word r
Clear-skip n j word none used all = λ k le lt. elim (Bool-cases (k == j)) [
  | inl e ↦ rw (==_eq k j e) used
  | inr ne ↦ all k (ground arith) (omega arith)
]
Clear-skip n j word (some d) used (le, lt, clear, all) = (
  omega arith,
  omega arith,
  clear,
  λ k le' lt'. elim (Bool-cases (k == j)) [
    | inl e ↦ rw (==_eq k j e) used
    | inr ne ↦ all k (ground arith) lt'
  ],
)

first_clear-Clear : (n j : ℕ) (word : ℕ → Bool) → Clear n j word (first_clear n j word)
unfolding first_clear
first_clear-Clear zero j word = λ k le lt. absurd (omega arith)
first_clear-Clear (suc n) j word = elim (Bool-cases (word j)) [
  | inl used ↦
      rw used
        (Clear-skip n j word (first_clear n (j + 1) word) used (first_clear-Clear n (j + 1) word))
  | inr clear ↦ rw clear (omega arith, omega arith, clear, λ k le lt. absurd (omega arith))
]

some_clear-false :
    (n j : ℕ) (word : ℕ → Bool)
    → some_clear n j word ≡ false
    → (k : ℕ) → j ≤ k
    → k < j + n
    → word k ≡ true
unfolding some_clear
some_clear-false zero j word e k le lt = absurd (omega arith)
some_clear-false (suc n) j word e k le lt = elim (Bool-cases (word j)) [
  | inl used ↦ elim (Bool-cases (k == j)) [
    | inl e' ↦ rw (==_eq k j e') used
    | inr ne ↦
        some_clear-false n (j + 1) word (ground (arith, e, used)) k (ground arith) (omega arith)
  ]
  | inr clear ↦ absurd (ground (arith, e, clear))
]

not_full-false : (word : ℕ → Bool) → not_full word ≡ false → (k : ℕ) → k < 32 → word k ≡ true
unfolding not_full
not_full-false word e k lt = some_clear-false 32 0 word e k (omega arith) lt

free_bit-Clear : (word : ℕ → Bool) → Clear 32 0 word (free_bit word)
unfolding free_bit
free_bit-Clear word = first_clear-Clear 32 0 word

-- The lowest frame in use by none, among the frames from `i` of `n` words.
abbrev pub LowestFree : (n i : ℕ) → Bitmap → ℤ → Type 0
LowestFree n i b (negsuc m) =
    (m ≡ 0) × ((f : ℕ) → i * 32 ≤ f → f < (i + n) * 32 → in_use b f ≡ true)
LowestFree n i b (pos d) =
    (i * 32 ≤ d)
    × (d < (i + n) * 32)
    × (in_use b d ≡ false)
    × ((f : ℕ) → i * 32 ≤ f → f < d → in_use b f ≡ true)

LowestFree-skip :
    (n i : ℕ) (b : Bitmap) (r : ℤ)
    → ((k : ℕ) → k < 32 → b i k ≡ true)
    → LowestFree n (i + 1) b r
    → LowestFree (suc n) i b r
LowestFree-skip n i b (negsuc m) used (e, all) = (
  e,
  λ f le lt. elim (Bool-cases (f / 32 == i)) [
    | inl e' ↦ rw (==_eq (f / 32) i e') (used (f % 32) (omega arith))
    | inr ne ↦ all f (ground arith) (omega arith)
  ],
)
LowestFree-skip n i b (pos d) used (le, lt, free, all) = (
  omega arith,
  omega arith,
  free,
  λ f le' lt'. elim (Bool-cases (f / 32 == i)) [
    | inl e' ↦ rw (==_eq (f / 32) i e') (used (f % 32) (omega arith))
    | inr ne ↦ all f (ground arith) lt'
  ],
)

word_case :
    (n i : ℕ) (b : Bitmap) (rest : ℤ) (r : Option ℕ)
    → Clear 32 0 (b i) r
    → LowestFree n (i + 1) b rest
    → LowestFree (suc n) i b (elim r as (λ x. ℤ) [ none ↦ rest | some j ↦ pos (i * 32 + j) ])
word_case n i b rest none all h =
    LowestFree-skip n i b rest (λ k lt. all k (omega arith) (omega arith)) h
word_case n i b rest (some d) (le, lt, clear, all) h =
    let word : (i * 32 + d) / 32 ≡ i = omega arith in
    let bit : (i * 32 + d) % 32 ≡ d = omega arith in
    (
      omega arith,
      omega arith,
      rw (word, bit) clear,
      λ f le' lt'.
          let word' : f / 32 ≡ i = omega arith in
          rw word' (all (f % 32) (omega arith) (omega arith)),
    )

pub first_free-LowestFree : (n i : ℕ) (b : Bitmap) → LowestFree n i b (first_free_from n i b)
unfolding first_free_from
first_free-LowestFree zero i b = (refl, λ f le lt. absurd (omega arith))
first_free-LowestFree (suc n) i b = elim (Bool-cases (not_full (b i))) [
  | inl e ↦ rw e (
      word_case n i b (first_free_from n (i + 1) b) (free_bit (b i)) (free_bit-Clear (b i))
        (first_free-LowestFree n (i + 1) b))
  | inr e ↦ rw e (
      LowestFree-skip n i b (first_free_from n (i + 1) b) (not_full-false (b i) e)
        (first_free-LowestFree n (i + 1) b))
]

pub set_frame-in_use :
    (b : Bitmap) (f g : ℕ) → in_use (set_frame b f) g ≡ (if g == f then true else in_use b g)
unfolding set_frame
set_frame-in_use b f g = ground arith

pub clear_frame-in_use :
    (b : Bitmap) (f g : ℕ) → in_use (clear_frame b f) g ≡ (if g == f then false else in_use b g)
unfolding clear_frame
clear_frame-in_use b f g = ground arith
