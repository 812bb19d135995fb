-- ===== src/Str/Number/Read.antt =====
-- `atoi` and `atoi_hex` on numerals.
use sometuffcoolpr.Prelude.{
  ℕ, zero, suc, ◌+◌, ◌-◌, ◌*◌, ◌/◌, ◌%◌, ◌^◌, ◌≤◌, ◌<◌, ◌≡◌, refl, some, List, [], ◌∷◌, ◌++◌, arith,
  ◌==◌, if◌then◌else◌, Bool-cases, inl, inr, true, false,
}
use sometuffcoolpr.Str.{atoi, atoi_loop, atoi_hex, atoi_hex_loop, skip_0x, hex_digit, u32}
use sometuffcoolpr.Str.Number.Digits.{digit_char, digits, numeral, All, All-append}

abbrev IsDecimal : ℕ → Type 0
IsDecimal c = (b'0' ≤ c) × (c ≤ b'9')

atoi_loop-snoc :
    (s : List ℕ) (c r : ℕ)
    → All IsDecimal s
    → IsDecimal c
    → atoi_loop (s ++ (c ∷ [])) r ≡ u32 (atoi_loop s r * 10 + (c - b'0'))
unfolding atoi_loop
atoi_loop-snoc [] c r hs hc = ground arith
atoi_loop-snoc (x ∷ s) c r hs hc =
    ground (arith, atoi_loop-snoc s c (u32 (r * 10 + (x - b'0'))) hs.1 hc)

digits-IsDecimal : (k v : ℕ) → All IsDecimal (digits 10 k v)
unfolding digits
digits-IsDecimal zero v = tt
digits-IsDecimal (suc k) v =
    elim (v == 0)
      as (λ b.
        All IsDecimal (if b then [] else digits 10 k (v / 10) ++ (digit_char (v % 10) ∷ []))) [
          | true ↦ tt
          | false ↦
              All-append _ (digits 10 k (v / 10)) _ (digits-IsDecimal k (v / 10)) (ground arith, tt)
        ]

atoi_loop-digits : (k v : ℕ) → v < k → v < 2 ^ 32 → atoi_loop (digits 10 k v) 0 ≡ v
unfolding digits atoi_loop
atoi_loop-digits zero v h hv = absurd (omega arith)
atoi_loop-digits (suc k) v h hv = elim (Bool-cases (v == 0)) [
  | inl done ↦ ground arith
  | inr more ↦ rw more (
      ground (
        arith,
        atoi_loop-snoc (digits 10 k (v / 10)) (digit_char (v % 10)) 0 (digits-IsDecimal k (v / 10)),
        atoi_loop-digits k (v / 10),
      ))
]

-- The value of an upper-case hexadecimal digit.
IsHex : ℕ → Type 0
IsHex c = (d : ℕ) × (hex_digit c ≡ some d)

hex_digit-char : (d : ℕ) → d < 16 → hex_digit (digit_char d) ≡ some d
unfolding hex_digit
hex_digit-char d h = ground arith

atoi_hex_loop-snoc :
    (s : List ℕ) (c d r : ℕ)
    → All IsHex s
    → hex_digit c ≡ some d
    → atoi_hex_loop (s ++ (c ∷ [])) r ≡ u32 (atoi_hex_loop s r * 16 + d)
unfolding atoi_hex_loop IsHex
atoi_hex_loop-snoc [] c d r hs hc = rw (hc, atoi_hex_loop)
atoi_hex_loop-snoc (x ∷ s) c d r hs hc =
    let (e, he) = hs.0 in
    rw (he, atoi_hex_loop) (atoi_hex_loop-snoc s c d (u32 (r * 16 + e)) hs.1 hc)

digits-IsHex : (k v : ℕ) → All IsHex (digits 16 k v)
unfolding digits IsHex
digits-IsHex zero v = tt
digits-IsHex (suc k) v =
    elim (v == 0)
      as (λ b. All IsHex (if b then [] else digits 16 k (v / 16) ++ (digit_char (v % 16) ∷ []))) [
        | true ↦ tt
        | false ↦
            All-append _ (digits 16 k (v / 16)) _ (digits-IsHex k (v / 16))
              ((v % 16, hex_digit-char (v % 16) (omega arith)), tt)
      ]

atoi_hex_loop-digits : (k v : ℕ) → v < k → v < 2 ^ 32 → atoi_hex_loop (digits 16 k v) 0 ≡ v
unfolding digits atoi_hex_loop
atoi_hex_loop-digits zero v h hv = absurd (omega arith)
atoi_hex_loop-digits (suc k) v h hv = elim (Bool-cases (v == 0)) [
  | inl done ↦ ground arith
  | inr more ↦ rw more (
      ground (
        arith,
        atoi_hex_loop-snoc (digits 16 k (v / 16)) (digit_char (v % 16)) (v % 16) 0
            (digits-IsHex k (v / 16)) (hex_digit-char (v % 16) (omega arith)),
        atoi_hex_loop-digits k (v / 16),
      ))
]

-- No numeral has an `x` for its second character.
skip-hex : (s : List ℕ) → All IsHex s → skip_0x s ≡ s
unfolding skip_0x IsHex hex_digit
skip-hex [] h = refl
skip-hex (z ∷ []) h = refl
skip-hex (z ∷ x ∷ s) h = let (d, e) = h.1.0 in ground arith

-- `atoi` reads the decimal numeral of every 32-bit value back (as the bit pattern of its `int`).
pub atoi-numeral : (k v : ℕ) → v < k → v < 2 ^ 32 → atoi (numeral 10 k v) ≡ v
unfolding atoi numeral
atoi-numeral k v h hv = elim (Bool-cases (v == 0)) [
  | inl e ↦ rw e (unfold atoi_loop in ground arith)
  | inr e ↦ rw e (atoi_loop-digits k v h hv)
]

-- `atoi_hex` reads the hexadecimal numeral of every 32-bit value back.
pub atoi_hex-numeral : (k v : ℕ) → v < k → v < 2 ^ 32 → atoi_hex (numeral 16 k v) ≡ v
unfolding atoi_hex numeral
atoi_hex-numeral k v h hv = elim (Bool-cases (v == 0)) [
  | inl e ↦ rw e (unfold atoi_hex_loop skip_0x hex_digit in ground arith)
  | inr e ↦ rw (e, skip-hex (digits 16 k v) (digits-IsHex k v)) (atoi_hex_loop-digits k v h hv)
]
