-- ===== src/Vga/Print.antt =====
-- How vga.c prints numbers.
use sometuffcoolpr.Prelude.{
  ℕ, zero, suc, ◌+◌, ◌*◌, ◌/◌, ◌%◌, ◌^◌, ◌<◌, ◌≡◌, refl, ◌∙◌, ap, sym, some, List, [], ◌∷◌, ◌++◌,
  arith, ◌==◌, Bool-cases, inl, inr,
}
use mathlib.Core.List.{append_assoc, append-nil}
use native.Mathlib.Nat.{pow-suc, div-div-eq-div-mul, div-le_self}
use sometuffcoolpr.Str.{atoi_hex, atoi_hex_loop, hex_digit}
use sometuffcoolpr.Str.Number.{digits, numeral}
use sometuffcoolpr.Vga.{
  Vga, print, dec_buffer, print_each, print_dec, putchar, hex_buffer, hex_nibbles, hex_char,
}

dec_buffer-digits :
    (k num : ℕ) (buffer : List ℕ) → num < k → dec_buffer k num buffer ≡ digits 10 k num ++ buffer
unfolding dec_buffer digits
dec_buffer-digits zero num buffer h = absurd (omega arith)
dec_buffer-digits (suc k) num buffer h = elim (Bool-cases (num == 0)) [
  | inl e ↦ ground arith
  | inr e ↦
      let d = b'0' + num % 10 in
      rw e (
        ground (
          arith,
          dec_buffer-digits k (num / 10) (d ∷ buffer),
          append_assoc (digits 10 k (num / 10)) (d ∷ []) buffer,
        ))
]

print_each-print : (buffer : List ℕ) (v : Vga) → print_each buffer v ≡ print buffer v
unfolding print_each print
print_each-print [] v = refl
print_each-print (c ∷ buffer) v = print_each-print buffer (putchar c v)

-- `vga_print_dec` prints the decimal numeral of the number.
pub print_dec-numeral : (num : ℕ) (v : Vga) → print_dec num v ≡ print (numeral 10 (num + 1) num) v
unfolding print_dec numeral
print_dec-numeral num v = elim (Bool-cases (num == 0)) [
  | inl e ↦ rw e
  | inr e ↦ rw e (
      print_each-print (dec_buffer (num + 1) num []) v
      ∙ ap (λ s. print s v) (dec_buffer-digits (num + 1) num [] (omega arith) ∙ append-nil _))
]

sixteenth : (v n : ℕ) → v / 2 ^ (suc n * 4) ≡ v / 2 ^ (n * 4) / 16
sixteenth v n =
    let e : suc n * 4 ≡ suc (suc (suc (suc (n * 4)))) = omega arith in
    let p : 2 ^ suc (suc (suc (suc (n * 4)))) ≡ 2 ^ (n * 4) * 16 = omega (
      arith,
      pow-suc 2 (n * 4),
      pow-suc 2 (suc (n * 4)),
      pow-suc 2 (suc (suc (n * 4))),
      pow-suc 2 (suc (suc (suc (n * 4)))),
    ) in
    rw (e, p) (sym (div-div-eq-div-mul v (2 ^ (n * 4)) 16))

hex_char-digit : (d : ℕ) → d < 16 → hex_digit (hex_char d) ≡ some d
unfolding hex_char hex_digit
hex_char-digit d h = ground arith

-- With the nibbles above the last `n` read, the rest completes the value.
read-nibbles : (n v : ℕ) → v < 2 ^ 32 → atoi_hex_loop (hex_nibbles n v) (v / 2 ^ (n * 4)) ≡ v
unfolding hex_nibbles atoi_hex_loop
read-nibbles zero v h = omega arith
read-nibbles (suc n) v h =
    let d = v / 2 ^ (n * 4) % 16 in
    let e : (v / 2 ^ (suc n * 4) * 16 + d) % 2 ^ 32 ≡ v / 2 ^ (n * 4) =
      omega (arith, sixteenth v n, div-le_self v (2 ^ (n * 4))) in
    rw (hex_char-digit d (omega arith), atoi_hex_loop, e) (read-nibbles n v h)

-- What `vga_print_hex` prints (`0x` and eight digits) is read back by `atoi_hex`, for every 32-bit
-- value: an address that the shell prints can be typed in again.
pub atoi_hex-hex_buffer : (v : ℕ) → v < 2 ^ 32 → atoi_hex (hex_buffer v) ≡ v
unfolding atoi_hex hex_buffer
atoi_hex-hex_buffer v h = let e : v / 2 ^ 32 ≡ 0 = omega arith in rw e at (read-nibbles 8 v h)
