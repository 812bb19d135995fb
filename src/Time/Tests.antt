-- ===== src/Time/Tests.antt =====
-- The timer of src/kernel/core/time.c.
use sometuffcoolpr.Prelude.{◌≡◌, some, arith}
use sometuffcoolpr.Time.{sleep}
use sometuffcoolpr.Time.Clock.{run, timer, sleep-run}

sleep-run_example : sleep 5 35 (timer 0xFFFFFFFE 0) ≡ some (run 3 (timer 0xFFFFFFFE 0))
sleep-run_example = sleep-run 5 35 (timer 0xFFFFFFFE 0) (omega arith) (omega arith) (omega arith)
