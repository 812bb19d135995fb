-- ===== src/Str/Number/Digits.antt =====
-- The numeral of a number, most significant digit first: the description that `utoa` meets.
use sometuffcoolpr.Prelude.{
  ℕ, zero, suc, ◌+◌, ◌-◌, ◌*◌, ◌/◌, ◌%◌, ◌^◌, ◌≤◌, ◌<◌, ◌≡◌, ◌≢◌, true, false, List, [], ◌∷◌, ◌++◌,
  arith, ◌==◌, ltb, length, length-append, Bool-cases, inl, inr, if◌then◌else◌, get_or,
}
use sometuffcoolpr.Prelude.Memory.{Memory}
use sometuffcoolpr.Str.Copy.{Holds}

abbrev pub digit_char : ℕ → ℕ
digit_char d = if ltb d 10 then b'0' + d else b'A' + (d - 10)

-- The digits of `v` in `base`, none for 0; `k` bounds their number.
unfoldable pub digits : ℕ → ℕ → ℕ → List ℕ
digits base zero v = []
digits base (suc k) v =
    let front = digits base k (v / base) in
    if v == 0 then [] else front ++ (digit_char (v % base) ∷ [])

unfoldable pub numeral : ℕ → ℕ → ℕ → List ℕ
unfolding digits
numeral base k v = if v == 0 then b'0' ∷ [] else digits base k v

abbrev pub All : (ℕ → Type 0) → List ℕ → Type 0
All P [] = Unit {0}
All P (x ∷ xs) = P x × All P xs

pub All-append : (P : ℕ → Type 0) (xs ys : List ℕ) → All P xs → All P ys → All P (xs ++ ys)
All-append P [] ys hx hy = hy
All-append P (x ∷ xs) ys hx hy = (hx.0, All-append P xs ys hx.1 hy)

pub get_or-append :
    (xs ys : List ℕ) (i d : ℕ)
    → get_or (xs ++ ys) i d
      ≡ (if ltb i (length xs) then get_or xs i d else get_or ys (i - length xs) d)
get_or-append [] ys i d = ground arith
get_or-append (x ∷ xs) ys zero d = ground arith
get_or-append (x ∷ xs) ys (suc i) d = ground (arith, get_or-append xs ys i d)

pub Holds-of_bytes :
    (s : List ℕ) (p : ℕ) (m : Memory)
    → ((i : ℕ) → i < length s → m (p + i) ≡ get_or s i 0)
    → All (λ c. c ≢ 0) s
    → m (p + length s) ≡ 0
    → Holds m p s
Holds-of_bytes [] p m same h end = let e : p + 0 ≡ p = omega arith in rw e at end
Holds-of_bytes (c ∷ s) p m same h end =
    let e : p + 0 ≡ p = omega arith in
    let f : p + suc (length s) ≡ p + 1 + length s = omega arith in
    (
      rw e at (same 0 (omega arith)),
      h.0,
      Holds-of_bytes s (p + 1) m
          (λ i lt.
            let g : p + suc i ≡ p + 1 + i = omega arith in rw g at (same (suc i) (omega arith)))
          h.1 (rw f at end),
    )

pub digits-ne-zero : (base k v : ℕ) → All (λ c. c ≢ 0) (digits base k v)
unfolding digits
digits-ne-zero base zero v = tt
digits-ne-zero base (suc k) v =
    elim (v == 0)
      as (λ b.
        All (λ c. c ≢ 0)
          (if b then [] else digits base k (v / base) ++ (digit_char (v % base) ∷ []))) [
            | true ↦ tt
            | false ↦
                All-append _ (digits base k (v / base)) _ (digits-ne-zero base k (v / base))
                  (ground arith, tt)
          ]

abbrev power_of_ten : ℕ → ℕ
power_of_ten zero = 1
power_of_ten (suc d) = 10 * power_of_ten d

length-digits : (k d v : ℕ) → v < power_of_ten d → length (digits 10 k v) ≤ d
unfolding digits
length-digits zero d v lt = omega arith
length-digits (suc k) zero v lt =
    let nothing : (v == 0) ≡ true = ground (arith, lt) in rw nothing (omega arith)
length-digits (suc k) (suc d) v lt = elim (Bool-cases (v == 0)) [
  | inl nothing ↦ rw nothing (omega arith)
  | inr something ↦
      let shorter = length-digits k d (v / 10) (omega (arith, lt)) in
      rw something
        (omega (arith, shorter, length-append (digits 10 k (v / 10)) (digit_char (v % 10) ∷ [])))
]

-- A 32-bit number has at most ten decimal digits.
pub length-numeral : (k v : ℕ) → v < 2 ^ 32 → length (numeral 10 k v) ≤ 10
unfolding numeral
length-numeral k v lt = elim (Bool-cases (v == 0)) [
  | inl nothing ↦ rw nothing (omega arith)
  | inr something ↦ rw something (length-digits k 10 v (omega (arith, lt)))
]
