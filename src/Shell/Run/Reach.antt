-- ===== src/Shell/Run/Reach.antt =====
-- What holds in every state that the running kernel reaches.
use sometuffcoolpr.Prelude.{
  ℕ, zero, suc, ◌<◌, ◌≡◌, ◌≢◌, refl, ◌∙◌, subst, true, List, [], ◌∷◌, arith, length,
}
use sometuffcoolpr.Str.Number.{All}
use sometuffcoolpr.Vga.Cursor.{OnScreen}
use sometuffcoolpr.Keyboard.{has_input}
use sometuffcoolpr.Keyboard.Queue.{
  contents, has_input-contents, has_input-empty, irq_handler-nonzero, getchar-next,
}
use sometuffcoolpr.Console.Line.{edit}
use sometuffcoolpr.Fs.{ok}
use sometuffcoolpr.Machine.{Machine, World, screen}
use sometuffcoolpr.Shell.Run.{
  turn, shell_update, key, Step, Reached, pressed, ticked, turned, start, after,
}
use sometuffcoolpr.Shell.Run.Keeps.{Ok}
use sometuffcoolpr.Shell.Run.Invariant.{Sound, turn-Sound, turn-typed, typed_char}

-- Some line is typed and some characters wait, and no cell beyond the screen differs from `m`.
pub record SoundFrom (m m' : Machine) : Type 0 where
  pub line : List ℕ
  pub waiting : List ℕ
  pub sound : Sound m' line waiting
  pub cells : OnScreen (screen m).cells (screen m').cells

key-Sound :
    (scancode : ℕ) (m : Machine) (line waiting : List ℕ)
    → scancode < 256
    → Sound m line waiting
    → SoundFrom m (key scancode m)
unfolding key
key-Sound scancode m line waiting small s =
    let (queue, nz) =
      irq_handler-nonzero scancode m.keyboard small s.queue_in (rw s.queue_is s.nonzero) in
    record {
      line = line;
      waiting = contents (key scancode m).keyboard;
      sound = record {
        screen_in = s.screen_in;
        line_is = s.line_is;
        queue_in = queue;
        queue_is = refl;
        nonzero = nz;
      };
      cells = λ a out. refl;
    }

turn-SoundFrom :
    (w : World) (m m' : Machine) (line waiting : List ℕ)
    → Sound m line waiting
    → has_input m.keyboard ≡ true
    → turn w m ≡ ok m'
    → SoundFrom m m'
turn-SoundFrom w m m' line [] s has e =
    absurd (has_input-contents m.keyboard s.queue_in has s.queue_is)
turn-SoundFrom w m m' line (c ∷ waiting) s has e =
    let (sound, cells) = (subst (Ok _) e (turn-Sound w m line c waiting s)).outcome in
    record { line = _; waiting = waiting; sound = sound; cells = cells }

Step-Sound :
    (m m' : Machine) (line waiting : List ℕ) → Sound m line waiting → Step m m' → SoundFrom m m'
Step-Sound m m' line waiting s (pressed scancode small) = key-Sound scancode m line waiting small s
Step-Sound m m' line waiting s ticked = record {
  line = line;
  waiting = waiting;
  sound = record {
    screen_in = s.screen_in;
    line_is = s.line_is;
    queue_in = s.queue_in;
    queue_is = s.queue_is;
    nonzero = s.nonzero;
  };
  cells = λ a out. refl;
}
Step-Sound m m' line waiting s (turned w has e) = turn-SoundFrom w m m' line waiting s has e

-- From a state whose cursor is on the screen, whose console holds a NUL-terminated line of fewer
-- than 256 characters, and whose keyboard has its indices in range and no NUL waiting, the kernel
-- reaches only such states, and no cell beyond the screen is written.
pub Reached-Sound :
    (m m' : Machine) (line waiting : List ℕ) → Sound m line waiting → Reached m m' → SoundFrom m m'
Reached-Sound m m' line waiting s start = record {
  line = line;
  waiting = waiting;
  sound = s;
  cells = λ a out. refl;
}
Reached-Sound m m'' line waiting s (after {m'} r step) =
    let before = Reached-Sound m m' line waiting s r in
    let here = Step-Sound m' m'' before.line before.waiting before.sound step in
    record {
      line = here.line;
      waiting = here.waiting;
      sound = here.sound;
      cells = λ a out. here.cells a out ∙ before.cells a out;
    }

-- The line behind the characters `cs`.
unfoldable pub edits : List ℕ → List ℕ → List ℕ
edits line [] = line
edits line (c ∷ cs) = edits (edit c line) cs

-- In a state of the invariant, with no newline among the characters that wait and fuel for one
-- turn more than there are, `shell_update` ends, nothing waits then, and each character has edited
-- the line.
pub shell_update-types :
    (fuel : ℕ) (w : World) (m : Machine) (line waiting : List ℕ)
    → length waiting < fuel
    → All (λ c. c ≢ 10) waiting
    → Sound m line waiting
    → (m' : Machine) × (shell_update fuel w m ≡ ok m') × Sound m' (edits line waiting) []
unfolding shell_update edits
shell_update-types zero w m line waiting enough plain s = absurd (omega (arith, enough))
shell_update-types (suc k) w m line [] enough plain s =
    (m, rw (has_input-empty m.keyboard s.queue_in s.queue_is) refl, s)
shell_update-types (suc k) w m line (c ∷ waiting) enough plain s =
    let (first, queue, rest, has) = getchar-next m.keyboard c waiting s.queue_in s.queue_is in
    let (e, sound) = turn-typed w m line c waiting plain.0 s in
    let (m', e', sound') =
      shell_update-types k w (typed_char c m) (edit c line) waiting (omega (arith, enough)) plain.1
        sound in
    (m', rw has (rw e e'), sound')
