-- ===== src/Boot/Stages.antt =====
-- Steps of src/kernel/core/boot.c that return.
use sometuffcoolpr.Prelude.{
  ℕ, zero, suc, ◌-◌, ◌/◌, ◌^◌, ◌<◌, ◌≡◌, refl, List, [], ◌∷◌, arith, leb, ◌==◌, Bool-cases, inl,
  inr,
}
use sometuffcoolpr.Prelude.Text.{codes}
use sometuffcoolpr.Str.{CString}
use sometuffcoolpr.Vga.Output.{Item, text}
use sometuffcoolpr.Heap.{Heap}
use sometuffcoolpr.Pmm.{Pmm}
use sometuffcoolpr.Time.{Timer, tick}
use sometuffcoolpr.Time.Clock.{run, sleep-run}
use sometuffcoolpr.Fs.{Result, ok, ◌>>=◌, Fs}
use sometuffcoolpr.Machine.{Machine, World, screen, output}
use native.Mathlib.Nat.{div-lt_iff_lt-mul}
use sometuffcoolpr.Shell.Commands.{pause, finished}
use sometuffcoolpr.Boot.{status_begin, status_end_ok, status_loading_animation, animate, stage}

-- The step returns, and what it returns has the property.
pub record Returns (P : Machine → Type 0) (r : Result Machine) : Type 0 where
  pub machine : Machine
  pub is : r ≡ ok machine
  pub holds : P machine

-- The parts that the boot fills in, and a clock in range.
pub record At (pmm : Pmm) (heap : Heap) (fs : Fs) (m : Machine) : Type 0 where
  pub pmm_is : m.pmm ≡ pmm
  pub heap_is : m.heap ≡ heap
  pub fs_is : m.fs ≡ fs
  pub ticks_in : m.timer.ticks < 2 ^ 32

pub then-Returns :
    {P Q : Machine → Type 0} {r : Result Machine} {f : Machine → Result Machine}
    → Returns P r
    → ((m : Machine) → P m → Returns Q (f m))
    → Returns Q (r >>= f)
then-Returns {f = f} h g =
    let k = g h.machine h.holds in
    record { machine = k.machine; is = rw h.is k.is; holds = k.holds }

pub output-At :
    {pmm : Pmm} {heap : Heap} {fs : Fs} (is : List Item) (m : Machine)
    → At pmm heap fs m
    → At pmm heap fs (output is m)
output-At is m a = record {
  pmm_is = a.pmm_is;
  heap_is = a.heap_is;
  fs_is = a.fs_is;
  ticks_in = a.ticks_in;
}

module _ {pmm pmm' : Pmm} {heap heap' : Heap} {fs fs' : Fs} where
  pub stage-At :
      {step : Machine → Result Machine} (message : CString)
      → ((m : Machine) → At pmm heap fs m → Returns (At pmm' heap' fs') (step m))
      → (m : Machine) → At pmm heap fs m
      → Returns (At pmm' heap' fs') (stage message step m)
  unfolding stage status_end_ok
  stage-At message step-At m a =
      let h = step-At (status_begin message m) (output-At _ m a) in
      let b = h.holds in
      record {
        machine = status_end_ok h.machine;
        is = rw h.is refl;
        holds = record {
          pmm_is = b.pmm_is;
          heap_is = b.heap_is;
          fs_is = b.fs_is;
          ticks_in = b.ticks_in;
        };
      }

run-ticks : (n : ℕ) (t : Timer) → t.ticks < 2 ^ 32 → (run n t).ticks < 2 ^ 32
unfolding tick
run-ticks zero t h = h
run-ticks (suc n) t h = run-ticks n (tick t) (omega arith)

module _ {pmm : Pmm} {heap : Heap} {fs : Fs} (w : World) (fuel : 220 < w.fuel) where
  pub pause-At :
      (ms : ℕ) (m : Machine)
      → ms < 2201
      → At pmm heap fs m
      → Returns (At pmm heap fs) (pause ms w m)
  unfolding pause finished
  pause-At ms m short a = record {
    machine = record m { timer = run (ms / 10) m.timer };
    is = rw (sleep-run w.fuel ms m.timer a.ticks_in (omega arith) (omega (arith, fuel))) refl;
    holds = record {
      pmm_is = a.pmm_is;
      heap_is = a.heap_is;
      fs_is = a.fs_is;
      ticks_in = run-ticks (ms / 10) m.timer a.ticks_in;
    };
  }

  animate-At :
      (n delay : ℕ) (m : Machine)
      → delay < 2201
      → At pmm heap fs m
      → Returns (At pmm heap fs) (animate n delay w m)
  unfolding animate
  animate-At zero delay m short a = record { machine = m; is = refl; holds = a }
  animate-At (suc n) delay m short a =
      then-Returns (pause-At delay _ short (output-At (text (codes ".") ∷ []) m a))
        λ m' a'. animate-At n delay m' short a'

  pub loading-At :
      (m : Machine) → At pmm heap fs m → Returns (At pmm heap fs) (status_loading_animation 823 w m)
  unfolding status_loading_animation
  loading-At m a = elim (Bool-cases (leb 60 (screen m).column)) [
    | inl right ↦ rw right (record { machine = m; is = refl; holds = a })
    | inr left ↦
        let short : 823 / (60 - (screen m).column) < 2201 =
          (div-lt_iff_lt-mul {k = 60 - (screen m).column} {x = 823} {y = 2201}
              (ground (arith, left))).1
            (ground (arith, left)) in
        rw left (elim (Bool-cases (823 / (60 - (screen m).column) == 0)) [
          | inl at_once ↦ rw at_once (animate-At _ 1 m (omega arith) a)
          | inr later ↦ rw later (animate-At _ _ m short a)
        ])
  ]
