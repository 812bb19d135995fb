-- ===== src/Str/Number/Print.antt =====
-- `utoa` and the numeral of its value.
use sometuffcoolpr.Prelude.{
  ℕ, zero, suc, ◌+◌, ◌-◌, ◌/◌, ◌%◌, ◌≤◌, ◌<◌, ◌≡◌, some, false, List, [], ◌∷◌, ◌++◌, arith, ◌==◌,
  ltb, leb, length, length-append, if◌then◌else◌, get_or, ◌&&◌, Bool-cases, inl, inr,
}
use sometuffcoolpr.Prelude.Memory.{Memory, write}
use sometuffcoolpr.Str.{utoa_digit, utoa_emit, utoa_reverse, utoa}
use sometuffcoolpr.Str.Copy.{Holds, SameOutside}
use sometuffcoolpr.Str.Number.Digits.{
  digit_char, digits, numeral, get_or-append, Holds-of_bytes, digits-ne-zero,
}

-- The bytes from `ptr1` to `ptr` stand in reverse order, all others as before.
reverse-bytes :
    (k : ℕ) (m : Memory) (i j : ℕ)
    → j < i + k
    → 0 < k
    → (m' : Memory) × (utoa_reverse k m i j ≡ some m')
      × ((a : ℕ) → m' a ≡ (if leb i a && leb a j then m (i + j - a) else m a))
unfolding utoa_reverse
reverse-bytes zero m i j h z = absurd (omega arith)
reverse-bytes (suc zero) m i j h z = (
  m,
  ground arith,
  λ a. let e : i ≤ a → a ≤ j → i + j - a ≡ a = λ p q. omega arith in ground (arith, e),
)
reverse-bytes (suc (suc k)) m i j h z = elim (Bool-cases (ltb i j)) [
  | inl more ↦
      let next : Memory = write (write m j (m i)) i (m j) in
      let (m', run, same) =
        reverse-bytes (suc k) next (i + 1) (j - 1) (ground arith) (omega arith) in
      let e : i < j → i + 1 + (j - 1) ≡ i + j = λ p. omega arith in
      (m', ground arith, λ a. ground (arith, same a, e))
  | inr done ↦ (
    m,
    ground arith,
    λ a. let e : i ≤ a → a ≤ j → i + j - a ≡ a = λ p q. ground arith in ground (arith, e),
  )
]

abbrev Emitted : ℕ → ℕ → List ℕ → Memory → Memory → Type 0
Emitted ptr n ds m m' =
    (a : ℕ) → m' a ≡ (if leb ptr a && ltb a (ptr + n) then get_or ds (ptr + n - 1 - a) 0 else m a)

div-lt : (v b : ℕ) → 1 < b → 0 < v → v / b < v
div-lt v b h p = grind arith

-- A digit below 201 has a byte of its own.
utoa_digit-char : (d : ℕ) → d < 201 → utoa_digit d ≡ digit_char d
unfolding utoa_digit
utoa_digit-char d h = ground arith

mod-lt : (v b : ℕ) → 1 < b → b ≤ 201 → v % b < 201
mod-lt v b h p = grind arith

-- The digits stand from `ptr` on, the last one first.
emit-digits :
    (k : ℕ) (m : Memory) (ptr v base : ℕ)
    → 1 < base
    → base ≤ 201
    → v < k
    → (m' : Memory) × (utoa_emit k m ptr v base ≡ some (m', ptr + length (digits base k v)))
      × Emitted ptr (length (digits base k v)) (digits base k v) m m'
unfolding utoa_emit digits
emit-digits zero m ptr v base hb top h = absurd (omega arith)
emit-digits (suc k) m ptr v base hb top h = elim (Bool-cases (v == 0)) [
  | inl done ↦ (m, ground arith, λ a. ground arith)
  | inr more ↦
      let c = digit_char (v % base) in
      let next : Memory = write m ptr c in
      let ds = digits base k (v / base) in
      let small : v / base < k = ground (arith, div-lt v base) in
      let (m', run, out) = emit-digits k next (ptr + 1) (v / base) base hb top small in
      let size : length (ds ++ (c ∷ [])) ≡ length ds + 1 =
        omega (arith, length-append ds (c ∷ [])) in
      rw (more, utoa_digit-char (v % base) (mod-lt v base hb top))
        (
          m',
          ground (arith, run, size),
          λ a. ground (
            arith,
            out a,
            size,
            get_or-append ds (c ∷ []) (ptr + length (ds ++ (c ∷ [])) - 1 - a) 0,
          ),
        )
]

digits-cons : (base k v : ℕ) → v < k → (v == 0) ≡ false → 0 < length (digits base k v)
unfolding digits
digits-cons base zero v h e = absurd (omega arith)
digits-cons base (suc k) v h e =
    rw e (omega (arith, length-append (digits base k (v / base)) (digit_char (v % base) ∷ [])))

length-digits : (base k v : ℕ) → length (digits base k v) ≤ k
unfolding digits
length-digits base zero v = omega arith
length-digits base (suc k) v = ground (
  arith,
  length-digits base k (v / base),
  length-append (digits base k (v / base)) (digit_char (v % base) ∷ []),
)

utoa-nonzero :
    (fuel : ℕ) (m : Memory) (v buffer base : ℕ)
    → 1 < base
    → base ≤ 201
    → v < fuel
    → (v == 0) ≡ false
    → (m' : Memory) × (utoa fuel m v buffer base ≡ some m')
      × Holds m' buffer (digits base fuel v)
      × SameOutside buffer (length (digits base fuel v) + 1) m m'
unfolding utoa
utoa-nonzero fuel m v buffer base hb top h nz =
    let ds = digits base fuel v in
    let n = length ds in
    let pos : 0 < n = digits-cons base fuel v h nz in
    let (m1, run1, out1) = emit-digits fuel m buffer v base hb top h in
    let (m2, run2, out2) =
      reverse-bytes fuel (write m1 (buffer + n) 0) buffer (buffer + n - 1)
        (omega (arith, length-digits base fuel v)) (omega arith) in
    (
      m2,
      rw (nz, run1, utoa) run2,
      Holds-of_bytes ds buffer m2
          (λ i lt.
            let e : buffer + n - 1 - (buffer + (buffer + n - 1) - (buffer + i)) ≡ i = omega arith in
            ground (arith, out2 (buffer + i), out1 (buffer + (buffer + n - 1) - (buffer + i)), e))
          (digits-ne-zero base fuel v) (ground (arith, out2 (buffer + n))),
      λ a out. ground (arith, out2 a, out1 a),
    )

-- `utoa` ends, leaves the NUL-terminated numeral of the value in the base at the buffer, and writes
-- only over that many bytes. (`fuel` is above the value; the base is from 2 to 201, since a larger
-- one has digits that a byte does not hold.)
pub utoa-Holds :
    (fuel : ℕ) (m : Memory) (v buffer base : ℕ)
    → 1 < base
    → base ≤ 201
    → v < fuel
    → (m' : Memory) × (utoa fuel m v buffer base ≡ some m')
      × Holds m' buffer (numeral base fuel v)
      × SameOutside buffer (length (numeral base fuel v) + 1) m m'
unfolding numeral
utoa-Holds fuel m v buffer base hb top h = elim (Bool-cases (v == 0)) [
  | inl e ↦ rw e (
    write (write m buffer b'0') (buffer + 1) 0,
    unfold utoa in rw e,
    ground arith,
    λ a out. ground arith,
  )
  | inr e ↦ rw e (utoa-nonzero fuel m v buffer base hb top h e)
]
