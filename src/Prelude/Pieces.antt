-- ===== src/Prelude/Pieces.antt =====
-- A list of characters cut at a separator.
use Prim.Native.Nat.{ℕ, ◌≤◌}
use mathlib.Core.Path.{◌≡◌, refl, ap}
use mathlib.Core.Bool.{false}
use mathlib.Core.Logic.{inl, inr}
use mathlib.Core.List.{List, [], ◌∷◌}
use native.Mathlib.Omega.{arith}
use sometuffcoolpr.Prelude.{◌==◌, if◌then◌else◌, Bool-cases, length}

abbrev pub tail : List ℕ → List ℕ
tail [] = []
tail (c ∷ s) = s

module _ (sep : ℕ) where
  -- The list behind the separators that it starts with.
  unfoldable pub skip : List ℕ → List ℕ
  skip [] = []
  skip (c ∷ s) = let rest = skip s in if c == sep then rest else c ∷ s

  -- The list up to its first separator.
  unfoldable pub piece : List ℕ → List ℕ
  piece [] = []
  piece (c ∷ s) = let rest = piece s in if c == sep then [] else c ∷ rest

  -- The list from its first separator.
  unfoldable pub behind : List ℕ → List ℕ
  behind [] = []
  behind (c ∷ s) = let rest = behind s in if c == sep then c ∷ s else rest

  -- All the pieces between separators, the first and the others; some may be empty.
  unfoldable pub split : List ℕ → List ℕ × List (List ℕ)
  split [] = ([], [])
  split (c ∷ s) =
      if c == sep then ([], (split s).0 ∷ (split s).1) else (c ∷ (split s).0, (split s).1)

nonempty : List (List ℕ) → List (List ℕ)
nonempty [] = []
nonempty ([] ∷ ps) = nonempty ps
nonempty ((c ∷ p) ∷ ps) = (c ∷ p) ∷ nonempty ps

module _ (sep : ℕ) where
  -- The pieces between the separators that are not empty.
  unfoldable pub pieces : List ℕ → List (List ℕ)
  unfolding split nonempty
  pieces s = nonempty ((split sep s).0 ∷ (split sep s).1)

  -- A list that does not start with a separator.
  abbrev pub IsPiece : List ℕ → Type 0
  IsPiece [] = Unit {0}
  IsPiece (d ∷ ds) = (d == sep) ≡ false

  split-piece : (s : List ℕ) → (split sep s).0 ≡ piece sep s
  unfolding split piece
  split-piece [] = refl
  split-piece (c ∷ s) = ground (arith, split-piece s)

  split-behind : (s : List ℕ) → nonempty (split sep s).1 ≡ pieces (behind sep s)
  unfolding pieces behind
  split-behind [] = refl
  split-behind (c ∷ s) = elim (Bool-cases (c == sep)) [
    | inl e ↦ rw e (rw e refl)
    | inr e ↦ rw e (split-behind s)
  ]

  pub pieces-skip : (s : List ℕ) → pieces (skip sep s) ≡ pieces s
  unfolding pieces skip
  pieces-skip [] = refl
  pieces-skip (c ∷ s) = elim (Bool-cases (c == sep)) [
    | inl e ↦ rw e (pieces-skip s)
    | inr e ↦ rw e (rw e refl)
  ]

  -- What does not start with a separator starts with a piece.
  pub pieces-piece :
      (d : ℕ) (ds : List ℕ)
      → (d == sep) ≡ false
      → pieces (d ∷ ds) ≡ piece sep (d ∷ ds) ∷ pieces (behind sep (d ∷ ds))
  unfolding pieces piece behind
  pieces-piece d ds e =
      rw e
        (rw (split-piece ds) (ap (λ (x : List (List ℕ)). (d ∷ piece sep ds) ∷ x) (split-behind ds)))

  pub length-skip : (s : List ℕ) → length (skip sep s) ≤ length s
  unfolding skip
  length-skip [] = omega arith
  length-skip (c ∷ s) = ground (arith, length-skip s)

  length-behind : (s : List ℕ) → length (behind sep s) ≤ length s
  unfolding behind
  length-behind [] = omega arith
  length-behind (c ∷ s) = ground (arith, length-behind s)

  pub length-behind_piece :
      (d : ℕ) (ds : List ℕ) → (d == sep) ≡ false → length (behind sep (d ∷ ds)) ≤ length ds
  unfolding behind
  length-behind_piece d ds e = rw e (length-behind ds)

  pub skip-IsPiece : (s : List ℕ) → IsPiece (skip sep s)
  unfolding skip
  skip-IsPiece [] = tt
  skip-IsPiece (c ∷ s) = elim (Bool-cases (c == sep)) [
    | inl e ↦ rw e (skip-IsPiece s)
    | inr e ↦ rw e e
  ]

  -- What is left behind a piece starts with a separator, which may be dropped.
  pub pieces-tail : (s : List ℕ) → pieces (tail (behind sep s)) ≡ pieces (behind sep s)
  unfolding behind pieces
  pieces-tail [] = refl
  pieces-tail (d ∷ s) = elim (Bool-cases (d == sep)) [
    | inl e ↦ rw e (rw e refl)
    | inr e ↦ rw e (pieces-tail s)
  ]
