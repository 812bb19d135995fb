-- ===== src/Shell/Commands/Calc.antt =====
-- What cmd_calc of src/kernel/shell/shell.c prints.
use sometuffcoolpr.Prelude.{
  ℕ, zero, suc, ◌+◌, ◌-◌, ◌*◌, ◌%◌, ◌&&◌, ◌∙◌, ◌^◌, ◌<◌, ◌≡◌, refl, [], ◌∷◌, arith, ◌==◌, ==_ne,
  if◌then◌else◌, length, Bool-cases, inl, inr,
}
use sometuffcoolpr.Prelude.Text.{codes}
use sometuffcoolpr.Prelude.Memory.{Memory}
use sometuffcoolpr.Str.{CString, utoa, char_at}
use sometuffcoolpr.Str.Copy.{Holds}
use sometuffcoolpr.Str.Number.{numeral, length-numeral, atoi-numeral, utoa-Holds}
use sometuffcoolpr.Vga.Output.{text, show}
use sometuffcoolpr.Fs.{ok, panic, ◌>>=◌}
use sometuffcoolpr.Machine.{Machine, World, say}
use sometuffcoolpr.Shell.Commands.{text_at, finished}
use sometuffcoolpr.Shell.Commands.Screen.{calculate, cmd_calc}

text_at-Holds :
    (s : CString) (n p : ℕ) (m : Memory) → length s < n → Holds m p s → text_at n m p ≡ s
unfolding text_at
text_at-Holds s zero p m lt h = absurd (omega (arith, lt))
text_at-Holds [] (suc n) p m lt h = rw h refl
text_at-Holds (c ∷ s) (suc n) p m lt (first, nz, rest) =
    rw (first, ==_ne c 0 nz, text_at-Holds s n (p + 1) m (omega (arith, lt)) rest) refl

calculate-small : (op a b : ℕ) → calculate op a b < 2 ^ 32
unfolding calculate
calculate-small op a b = ground arith

-- The end of `cmd_calc`.
print_result :
    (n : ℕ) (w : World) (m : Machine)
    → n < 2 ^ 32
    → (finished (utoa (2 ^ 32) w.raw n 0 10) >>= λ buf.
        say (text (text_at 32 buf 0) ∷ text (codes "\n") ∷ []) m)
      ≡ say (text (numeral 10 (2 ^ 32) n) ∷ text (codes "\n") ∷ []) m
unfolding finished
print_result n w m lt =
    let (buf, e, holds, same) = utoa-Holds (2 ^ 32) w.raw n 0 10 (omega arith) (omega arith) lt in
    let short = length-numeral (2 ^ 32) n lt in
    rw (e, text_at-Holds (numeral 10 (2 ^ 32) n) 32 0 buf (omega (arith, short)) holds) refl

calculate-value :
    (op a b : ℕ)
    → b < 2 ^ 32
    → calculate op a b ≡ (
        if op == b'+'
        then (a + b) % 2 ^ 32
        else if op == b'-'
        then (a + (2 ^ 32 - b)) % 2 ^ 32
        else if op == b'*'
        then a * b % 2 ^ 32
        else 0)
unfolding calculate
calculate-value op a b h = ground arith

-- For two 32-bit numbers, `calc` prints the decimal numeral of the sum, the difference or the product
-- modulo 2^32 for the operators +, - and *, and 0 for an unknown one. A division prints a message for
-- the divisor 0, panics for 2^31 and 2^32 - 1, which are the least `int` and -1, and else prints
-- nothing.
pub cmd_calc-numeral :
    (name op : CString) (k x y : ℕ) (w : World) (m : Machine)
    → x < 2 ^ 32
    → y < 2 ^ 32
    → x < k
    → y < k
    → cmd_calc (name ∷ numeral 10 k x ∷ op ∷ numeral 10 k y ∷ []) w m ≡ (
        if char_at op == b'/'
        then (if y == 0
            then say (text (codes "Division by zero!\n") ∷ []) m
            else if (x == 2 ^ 31) && (y == 2 ^ 32 - 1)
            then panic
            else ok m)
        else say
            (text (
                numeral 10 (2 ^ 32) (
                  if char_at op == b'+'
                  then (x + y) % 2 ^ 32
                  else if char_at op == b'-'
                  then (x + (2 ^ 32 - y)) % 2 ^ 32
                  else if char_at op == b'*'
                  then x * y % 2 ^ 32
                  else 0))
              ∷ text (codes "\n")
              ∷ [])
            m)
unfolding cmd_calc show
cmd_calc-numeral name op k x y w m hx hy kx ky =
    let ex = atoi-numeral k x kx hx in
    let ey = atoi-numeral k y ky hy in
    elim (Bool-cases (char_at op == b'/')) [
      | inl division ↦ rw (division, ex, ey) refl
      | inr other ↦
          rw (other, ex, ey)
            (print_result (calculate (char_at op) x y) w m (calculate-small (char_at op) x y)
              ∙ rw (calculate-value (char_at op) x y hy) refl)
    ]
