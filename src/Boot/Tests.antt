-- ===== src/Boot/Tests.antt =====
-- Concrete runs of the start and of the shell.
use sometuffcoolpr.Prelude.{ℕ, ◌*◌, ◌≡◌, refl, Option, none, some, [], ◌∷◌, arith, false}
use sometuffcoolpr.Heap.{Heap, kmalloc, heap_init}
use sometuffcoolpr.Fs.{ok}
use sometuffcoolpr.Machine.{Machine}
use sometuffcoolpr.Machine.Sample.{idle, world}
use sometuffcoolpr.Shell.Run.{shell_update, key, start, after, pressed}
use sometuffcoolpr.Shell.Run.Invariant.{Sound}
use sometuffcoolpr.Shell.Run.Reach.{SoundFrom, Reached-Sound, shell_update-types, edits}
use sometuffcoolpr.Shell.Commands.Places.{Places}
use sometuffcoolpr.Boot.{Platform}

-- The characters `c` wait, `n` of them.
abbrev typing : ℕ → ℕ → Machine
typing c n = record idle { keyboard = record { buffer = λ a. c; head = n; tail = 0 } }

idle-Sound : Sound idle [] []
idle-Sound = record {
  screen_in = record { row_in = omega arith; column_in = omega arith };
  line_is = record { size = refl; fits = omega arith; text = tt; holds = λ i lt. refl };
  queue_in = record { head_in = omega arith; tail_in = omega arith };
  queue_is = refl;
  nonzero = tt;
}

typing-Sound : Sound (typing b'a' 2) [] (b'a' ∷ b'a' ∷ [])
typing-Sound = record {
  screen_in = record { row_in = omega arith; column_in = omega arith };
  line_is = record { size = refl; fits = omega arith; text = tt; holds = λ i lt. refl };
  queue_in = record { head_in = omega arith; tail_in = omega arith };
  queue_is = refl;
  nonzero = (λ e. absurd (omega (arith, e)), (λ e. absurd (omega (arith, e)), tt));
}

Reached-Sound_example : SoundFrom idle (key 0x1E idle)
Reached-Sound_example =
    Reached-Sound idle (key 0x1E idle) [] [] idle-Sound (after start (pressed 0x1E (omega arith)))

shell_update-types_example :
    (m' : Machine) × (shell_update 3 world (typing b'a' 2) ≡ ok m')
    × Sound m' (edits [] (b'a' ∷ b'a' ∷ [])) []
shell_update-types_example =
    shell_update-types 3 world (typing b'a' 2) [] (b'a' ∷ b'a' ∷ []) (omega arith)
      (λ e. absurd (omega (arith, e)), (λ e. absurd (omega (arith, e)), tt)) typing-Sound

-- Usable memory from frame 1 to frame 64.
abbrev platform : Platform
platform = record {
  flags = 64;
  regions = record { addr = 4096; len = 63 * 4096; kind = 1 } ∷ [];
  kernel_start = 0x2000;
  kernel_end = 0x3010;
  bitmap = λ i j. false;
  mask1 = 0;
  mask2 = 0;
  isr = λ i. 0x100000;
  irq = λ i. 0x200000;
  tss = 0x5000;
}

abbrev got : Option (ℕ × Heap) → ℕ × Heap
got none = (0, idle.heap)
got (some r) = r

abbrev heap1 : Heap
heap1 = (got (kmalloc 300 228 (heap_init idle.heap))).1

abbrev heap2 : Heap
heap2 = (got (kmalloc 300 228 heap1)).1
