-- ===== src/Time.antt =====
-- src/kernel/core/time.c. A `hlt` of `sleep` waits for the next timer interrupt, one `timer_tick`.
pub mod Clock
mod Tests
use sometuffcoolpr.Prelude.{
  ℕ, zero, suc, ◌+◌, ◌-◌, ◌/◌, ◌%◌, ◌^◌, Option, none, some, ltb, ◌==◌, if◌then◌else◌, not, [], ◌∷◌,
  ◌++◌,
}
use sometuffcoolpr.Prelude.Text.{codes}
use sometuffcoolpr.Vga.{Vga, print, print_dec}

pub record Timer : Type 0 where
  pub ticks : ℕ
  pub seconds : ℕ

abbrev pub u32 : ℕ → ℕ
u32 n = n % 2 ^ 32

unfoldable pub tick : Timer → Timer
tick t =
    let ticks = u32 (t.ticks + 1) in
    record { ticks = ticks; seconds = if ticks % 100 == 0 then u32 (t.seconds + 1) else t.seconds }

unfoldable pub get_ticks : Timer → ℕ
get_ticks t = t.ticks

unfoldable pub get_seconds : Timer → ℕ
get_seconds t = t.seconds

-- `while ((ticks - start) < wait_ticks) hlt;`
pub wait : ℕ → ℕ → ℕ → Timer → Option Timer
wait zero start wait_ticks t = none
wait (suc k) start wait_ticks t =
    let rest = wait k start wait_ticks (tick t) in
    if ltb (u32 (t.ticks + 2 ^ 32 - start)) wait_ticks then rest else some t

unfoldable pub sleep : ℕ → ℕ → Timer → Option Timer
unfolding wait
sleep fuel ms t = wait fuel t.ticks (ms / 10) t

-- `previous` is the static `previousSeconds`.
unfoldable pub print_seconds : (previous : ℕ) → Timer → Vga → ℕ × Vga
unfolding print print_dec
print_seconds previous t v = if previous == t.seconds then (previous, v) else (
  t.seconds,
  print (codes " seconds passed since boot" ++ (10 ∷ [])) (print_dec t.seconds v),
)
