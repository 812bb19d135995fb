-- ===== src/Time/Clock.antt =====
-- The clock of time.c: seconds against ticks, and how long `sleep` sleeps.
use sometuffcoolpr.Prelude.{
  ℕ, zero, suc, ◌+◌, ◌-◌, ◌/◌, ◌^◌, ◌<◌, ◌≡◌, ◌∙◌, ap, true, some, arith, ltb,
}
use sometuffcoolpr.Time.{Timer, u32, tick, wait, sleep, get_seconds, get_ticks}

-- `n` timer interrupts.
abbrev pub run : ℕ → Timer → Timer
run zero t = t
run (suc n) t = run n (tick t)

abbrev pub timer : ℕ → ℕ → Timer
timer t s = record { ticks = t; seconds = s }

run-timer : (n t : ℕ) → t + n < 2 ^ 32 → run n (timer t (t / 100)) ≡ timer (t + n) ((t + n) / 100)
unfolding tick
run-timer zero t h = ap (λ (x : ℕ). timer x (x / 100)) (omega arith)
run-timer (suc n) t h =
    let e : tick (timer t (t / 100)) ≡ timer (t + 1) ((t + 1) / 100) = ground arith in
    ap (run n) e
    ∙ run-timer n (t + 1) (omega arith)
    ∙ ap (λ (x : ℕ). timer x (x / 100)) (omega arith)

-- After `n` timer interrupts from boot, before the tick counter wraps, `timer_get_ticks` is `n` and
-- `timer_get_seconds` is `n / 100`, at 100 ticks a second.
pub seconds-run :
    (n : ℕ)
    → n < 2 ^ 32
    → (get_ticks (run n (timer 0 0)) ≡ n) × (get_seconds (run n (timer 0 0)) ≡ n / 100)
unfolding get_ticks get_seconds
seconds-run n h =
    let e = run-timer n 0 (omega arith) in
    (ap (λ (t : Timer). t.ticks) e ∙ omega arith, ap (λ (t : Timer). t.seconds) e ∙ omega arith)

wait-run :
    (k n start w : ℕ) (t : Timer)
    → start < 2 ^ 32
    → t.ticks < 2 ^ 32
    → w < 2 ^ 32
    → u32 (t.ticks + 2 ^ 32 - start) + n ≡ w
    → n < k
    → wait k start w t ≡ some (run n t)
unfolding wait tick
wait-run zero n start w t hs ht hw e fuel = absurd (omega arith)
wait-run (suc k) zero start w t hs ht hw e fuel = ground arith
wait-run (suc k) (suc n) start w t hs ht hw e fuel =
    let more : ltb (u32 (t.ticks + 2 ^ 32 - start)) w ≡ true = ground arith in
    rw more (wait-run k n start w (tick t) hs (omega arith) hw (omega arith) (omega arith))

-- `sleep` returns after exactly one timer interrupt for each ten milliseconds asked for, rounded
-- down, also where the tick counter wraps meanwhile.
pub sleep-run :
    (fuel ms : ℕ) (t : Timer)
    → t.ticks < 2 ^ 32
    → ms < 2 ^ 32
    → ms / 10 < fuel
    → sleep fuel ms t ≡ some (run (ms / 10) t)
unfolding sleep
sleep-run fuel ms t ht hm enough =
    wait-run fuel (ms / 10) t.ticks (ms / 10) t ht ht (omega arith) (omega arith) enough
