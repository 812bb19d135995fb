-- ===== src/Shell/Run/Invariant.antt =====
-- The state of the running kernel that src/kernel/shell/shell.c, the keyboard driver and the console
-- share: which line is typed and which characters wait.
use sometuffcoolpr.Prelude.{
  ℕ, zero, suc, ◌+◌, ◌<◌, ◌≡◌, ◌≢◌, refl, ◌∙◌, subst, ap, List, [], ◌∷◌, arith, ◌==◌, if◌then◌else◌,
  length, get_or, Bool-cases, inl, inr, ==_eq, ==_ne,
}
use sometuffcoolpr.Prelude.Memory.{Memory}
use sometuffcoolpr.Str.{CString}
use sometuffcoolpr.Str.Number.{All}
use sometuffcoolpr.Vga.Cursor.{OnScreen, Safe}
use sometuffcoolpr.Vga.Cursor
use sometuffcoolpr.Vga.Output.{then-Safe, show-Safe, char}
use sometuffcoolpr.Keyboard.{getchar}
use sometuffcoolpr.Keyboard.Queue.{contents, pending, getchar-next, irq_handler-nonzero}
use sometuffcoolpr.Keyboard.Queue
use sometuffcoolpr.Console.{handle_char, clear_line, get_line}
use sometuffcoolpr.Console.Line.{IsLine, edit, handle_char-edit, handle_char-Safe, clear-IsLine}
use sometuffcoolpr.Fs.{ok, ◌>>=◌}
use sometuffcoolpr.Machine.{Machine, World, screen, output, say}
use sometuffcoolpr.Shell.{Action, nothing, run, unknown, overflow, execute_command}
use sometuffcoolpr.Shell.Parse.{execute_command-fits}
use sometuffcoolpr.Shell.Commands.{Handler, text_at}
use sometuffcoolpr.Shell.Run.{
  handlers, no_handler, perform, prompt, line_of, enter, take_char, turn,
}
use sometuffcoolpr.Shell.Run.Keeps.{Keeps, Ok, say-Keeps, then-Ok, bind-Ok, changed}
use sometuffcoolpr.Shell.Run.Handlers.{
  cmd_help-Keeps, cmd_panic-Keeps, cmd_state-Keeps, cmd_uptime-Keeps, cmd_cpuid-Keeps,
  cmd_sysfetch-Keeps, cmd_shutdown-Keeps, cmd_reboot-Keeps, cmd_clear-Keeps, cmd_echo-Keeps,
  cmd_calc-Keeps, cmd_asciitoint-Keeps, cmd_inttoascii-Keeps, cmd_cur-Keeps, cmd_meminfo-Keeps,
  cmd_heapinfo-Keeps, cmd_alloc-Keeps, cmd_free-Keeps, cmd_freelast-Keeps, cmd_memdump-Keeps,
  cmd_heapval-Keeps, cmd_mk-Keeps, cmd_mkr-Keeps, cmd_rd-Keeps, cmd_write-Keeps, cmd_ls-Keeps,
  cmd_cd-Keeps,
}

abbrev KeepsAll : Handler → Type 0
KeepsAll h = (argv : List CString) (w : World) (m : Machine) → Ok (Keeps m) (h argv w m)

abbrev AllKeep : List Handler → Type 0
AllKeep [] = Unit
AllKeep (h ∷ hs) = KeepsAll h × AllKeep hs

get_or-KeepsAll : (hs : List Handler) (i : ℕ) → AllKeep hs → KeepsAll (get_or hs i no_handler)
get_or-KeepsAll [] i k = λ argv w m. record { outcome = tt }
get_or-KeepsAll (h ∷ hs) zero k = k.0
get_or-KeepsAll (h ∷ hs) (suc i) k = get_or-KeepsAll hs i k.1

infixr 4 ◌&◌
abbrev ◌&◌ : {A B : Type 0} → A → B → A × B
k & ks = (k, ks)

handlers-AllKeep : AllKeep handlers
handlers-AllKeep =
    cmd_help-Keeps & cmd_panic-Keeps & cmd_state-Keeps & cmd_uptime-Keeps & cmd_cpuid-Keeps
    & cmd_meminfo-Keeps & cmd_heapinfo-Keeps & cmd_alloc-Keeps & cmd_free-Keeps & cmd_freelast-Keeps
    & cmd_memdump-Keeps & cmd_heapval-Keeps & cmd_sysfetch-Keeps & cmd_shutdown-Keeps
    & cmd_reboot-Keeps & cmd_clear-Keeps & cmd_echo-Keeps & cmd_calc-Keeps & cmd_asciitoint-Keeps
    & cmd_inttoascii-Keeps & cmd_mk-Keeps & cmd_mkr-Keeps & cmd_rd-Keeps & cmd_write-Keeps
    & cmd_ls-Keeps & cmd_cd-Keeps & cmd_cur-Keeps & tt

-- Whatever the line runs, a command that returns leaves the typed line and the waiting characters
-- alone.
pub perform-Keeps : (a : Action) (w : World) (m : Machine) → Ok (Keeps m) (perform a w m)
unfolding perform
perform-Keeps nothing w m = changed refl refl
perform-Keeps (run i argv) w m = get_or-KeepsAll handlers i handlers-AllKeep argv w m
perform-Keeps unknown w m = say-Keeps _ m
perform-Keeps overflow w m = record { outcome = tt }

-- The console holds `line`, the queue holds `waiting`, and the cursor is on the screen.
pub record Sound (m : Machine) (line waiting : List ℕ) : Type 0 where
  pub screen_in : Cursor.IsValid (screen m)
  pub line_is : IsLine m.console line
  pub queue_in : Queue.IsValid m.keyboard
  pub queue_is : contents m.keyboard ≡ waiting
  pub nonzero : All (λ c. c ≢ 0) waiting

text_at-line :
    (line : List ℕ) (n p : ℕ) (m : Memory)
    → length line < n
    → All (λ c. c ≢ 0) line
    → ((i : ℕ) → i < n → m (p + i) ≡ get_or line i 0)
    → text_at n m p ≡ line
unfolding text_at
text_at-line line zero p m h nz e = absurd (omega arith)
text_at-line [] (suc n) p m h nz e =
    let at_end : m p ≡ 0 = ap m (omega arith) ∙ e 0 (omega arith) in rw at_end refl
text_at-line (c ∷ line) (suc n) p m h nz e =
    let first : m p ≡ c = ap m (omega arith) ∙ e 0 (omega arith) in
    let rest =
      text_at-line line n (p + 1) m (omega arith) nz.1
        (λ i lt. ap m (omega arith) ∙ e (suc i) (omega arith)) in
    rw (first, ==_ne c 0 nz.0, rest) refl

-- What `console_get_line` points at is the typed line, and it fits the buffer of `execute_command`.
pub line_of-line :
    (m : Machine) (line waiting : List ℕ)
    → Sound m line waiting
    → (line_of m ≡ line) × (execute_command (line_of m) ≢ overflow)
unfolding get_line
line_of-line m line waiting s =
    let e : line_of m ≡ line =
      text_at-line line 256 0 m.console.line_buffer s.line_is.fits s.line_is.text
        (λ i lt. ap m.console.line_buffer (omega arith) ∙ s.line_is.holds i lt) in
    (e, rw e (execute_command-fits line s.line_is.fits))

-- The machine behind a turn for the character `c`, no newline.
abbrev pub typed_char : ℕ → Machine → Machine
typed_char c m = record m { keyboard = (getchar m.keyboard).1; console = handle_char c m.console }

pub turn-typed :
    (w : World) (m : Machine) (line : List ℕ) (c : ℕ) (waiting : List ℕ)
    → c ≢ 10
    → Sound m line (c ∷ waiting)
    → (turn w m ≡ ok (typed_char c m)) × Sound (typed_char c m) (edit c line) waiting
unfolding turn take_char
turn-typed w m line c waiting nl s =
    let (first, queue, rest, has) = getchar-next m.keyboard c waiting s.queue_in s.queue_is in
    (
      rw (first, ==_ne c 10 nl) refl,
      record {
        screen_in = (handle_char-Safe c m.console s.screen_in).0;
        line_is = handle_char-edit c m.console line s.nonzero.0 nl s.line_is;
        queue_in = queue;
        queue_is = rest;
        nonzero = s.nonzero.1;
      },
    )

turn-edit :
    (w : World) (m : Machine) (line : List ℕ) (c : ℕ) (waiting : List ℕ)
    → c ≢ 10
    → Sound m line (c ∷ waiting)
    → Ok
        (λ m'. Sound m' (edit c line) waiting × OnScreen (screen m).cells (screen m').cells)
        (turn w m)
turn-edit w m line c waiting nl s =
    let (e, sound) = turn-typed w m line c waiting nl s in
    rw e (record { outcome = (sound, (handle_char-Safe c m.console s.screen_in).1) })

-- The end of the branch of the newline, behind the command.
finish-Sound :
    (m m' : Machine) (waiting : List ℕ)
    → Cursor.IsValid (screen m)
    → Queue.IsValid m.keyboard
    → contents m.keyboard ≡ waiting
    → All (λ c. c ≢ 0) waiting
    → Keeps m m'
    → let m'' = output (prompt m'.mode) (record m' { console = clear_line m'.console }) in
      Sound m'' [] waiting × OnScreen (screen m).cells (screen m'').cells
unfolding clear_line
finish-Sound m m' waiting valid queue rest nz k =
    let safe = k.safe valid in
    let (valid', cells) =
      then-Safe (screen m) (screen m') _ safe (show-Safe (prompt m'.mode) (screen m') safe.0) in
    let cleared = (clear-IsLine m'.console).1 in
    (
      record {
        screen_in = valid';
        line_is = record {
          size = cleared.size;
          fits = cleared.fits;
          text = cleared.text;
          holds = cleared.holds;
        };
        queue_in = rw k.typed queue;
        queue_is = rw k.typed rest;
        nonzero = nz;
      },
      cells,
    )

-- The newline runs the typed line, and the line is empty behind it.
turn-enter :
    (w : World) (m : Machine) (line waiting : List ℕ)
    → Sound m line (10 ∷ waiting)
    → Ok (λ m'. Sound m' [] waiting × OnScreen (screen m).cells (screen m').cells) (turn w m)
unfolding turn take_char enter
turn-enter w m line waiting s =
    let (first, queue, rest, has) = getchar-next m.keyboard 10 waiting s.queue_in s.queue_is in
    let m1 : Machine = record m { keyboard = (getchar m.keyboard).1 } in
    rw first (
      bind-Ok
        (then-Ok (say-Keeps (char 10 ∷ []) m1).outcome
          (perform-Keeps (execute_command (line_of m)) w (output (char 10 ∷ []) m1)))
        λ m' k. record {
          outcome = finish-Sound m1 m' waiting s.screen_in queue rest s.nonzero.1 k;
        })

-- One turn of the shell's loop takes the first waiting character: a newline leaves an empty line,
-- every other character edits the line. The screen stays the only memory of the display written.
pub turn-Sound :
    (w : World) (m : Machine) (line : List ℕ) (c : ℕ) (waiting : List ℕ)
    → Sound m line (c ∷ waiting)
    → Ok
        (λ m'.
          Sound m' (if c == 10 then [] else edit c line) waiting
          × OnScreen (screen m).cells (screen m').cells)
        (turn w m)
turn-Sound w m line c waiting s = elim (Bool-cases (c == 10)) [
  | inl nl ↦ rw nl (
      turn-enter w m line waiting (subst (λ (x : ℕ). Sound m line (x ∷ waiting)) (==_eq c 10 nl) s))
  | inr plain ↦ rw plain (turn-edit w m line c waiting (ground (arith, plain)) s)
]

-- In a state of the invariant with a newline in front, the loop runs the typed line on the machine
-- that has taken the newline and echoed it, then clears the line and prints the prompt.
turn-runs :
    (w : World) (m : Machine) (line waiting : List ℕ)
    → Sound m line (10 ∷ waiting)
    → turn w m ≡ (
        perform
          (execute_command line)
          w
          (output (char 10 ∷ []) (record m { keyboard = (getchar m.keyboard).1 }))
        >>= λ m'. say (prompt m'.mode) (record m' { console = clear_line m'.console }))
unfolding turn take_char enter
turn-runs w m line waiting s =
    let (first, queue, rest, has) = getchar-next m.keyboard 10 waiting s.queue_in s.queue_is in
    rw (first, (line_of-line m line _ s).0) refl
