-- ===== src/Shell/Run.antt =====
-- The run of a command and the loop of the shell in src/kernel/shell/shell.c, and the steps of the
-- running kernel: the shell between two characters, and the interrupts.
pub mod Keeps
mod Touches
pub mod Handlers
pub mod Invariant
pub mod Reach
use sometuffcoolpr.Prelude.{
  ℕ, zero, suc, ◌+◌, ◌≡◌, ◌<◌, true, List, [], ◌∷◌, ◌++◌, ◌==◌, if◌then◌else◌, get_or,
}
use sometuffcoolpr.Prelude.Text.{codes}
use sometuffcoolpr.Str.{CString}
use sometuffcoolpr.Vga.{putchar}
use sometuffcoolpr.Vga.Output.{Item, text, colored, char}
use sometuffcoolpr.Keyboard.{irq_handler, has_input, getchar}
use sometuffcoolpr.Console.{handle_char, get_line, clear_line, console_buffer_size}
use sometuffcoolpr.Time.{tick}
use sometuffcoolpr.Fs.{Result, ok, fault, panic, out_of_fuel, ◌>>=◌}
use sometuffcoolpr.Machine.{Machine, World, say, output, screen, with_screen}
use sometuffcoolpr.Shell.{Action, nothing, run, unknown, overflow, execute_command}
use sometuffcoolpr.Shell.Commands.{Handler, text_at}
use sometuffcoolpr.Shell.Commands.Screen.{
  cmd_help, cmd_panic, cmd_state, cmd_uptime, cmd_cpuid, cmd_sysfetch, cmd_shutdown, cmd_reboot,
  cmd_clear, cmd_echo, cmd_calc, cmd_asciitoint, cmd_inttoascii, cmd_cur,
}
use sometuffcoolpr.Shell.Commands.Storage.{
  cmd_meminfo, cmd_heapinfo, cmd_alloc, cmd_free, cmd_freelast, cmd_memdump, cmd_heapval,
}
use sometuffcoolpr.Shell.Commands.Files.{cmd_mk, cmd_mkr, cmd_rd, cmd_write, cmd_ls, cmd_cd}

-- The handlers of `commands`, in the order of their names.
abbrev pub handlers : List Handler
handlers =
    cmd_help ∷ cmd_panic ∷ cmd_state ∷ cmd_uptime ∷ cmd_cpuid ∷ cmd_meminfo ∷ cmd_heapinfo
    ∷ cmd_alloc ∷ cmd_free ∷ cmd_freelast ∷ cmd_memdump ∷ cmd_heapval ∷ cmd_sysfetch ∷ cmd_shutdown
    ∷ cmd_reboot ∷ cmd_clear ∷ cmd_echo ∷ cmd_calc ∷ cmd_asciitoint ∷ cmd_inttoascii ∷ cmd_mk
    ∷ cmd_mkr ∷ cmd_rd ∷ cmd_write ∷ cmd_ls ∷ cmd_cd ∷ cmd_cur ∷ []

-- An index behind the table is never looked up.
abbrev pub no_handler : Handler
no_handler argv w m = fault

-- What `execute_command` does to the machine.
unfoldable pub perform : Action → World → Machine → Result Machine
perform nothing w m = ok m
perform (run i argv) w m = get_or handlers i no_handler argv w m
perform unknown w m = say (text (codes "Unknown command\n") ∷ []) m
perform overflow w m = fault

unfoldable pub prompt : ℕ → List Item
prompt mode =
    if mode == 0
    then colored (codes "kernel") 0xC ∷ text (codes "> ") ∷ []
    else if mode == 1
    then colored (codes "root") 0xE ∷ text (codes "> ") ∷ []
    else if mode == 2
    then colored (codes "user") 0x9 ∷ text (codes "> ") ∷ []
    else []

unfoldable pub shell_init : Machine → Machine
unfolding prompt
shell_init m = output (prompt m.mode) (record m { cwd = m.fs.root })

-- The line that `console_get_line` points at: the bytes up to the first NUL of the buffer.
abbrev pub line_of : Machine → CString
line_of m = text_at console_buffer_size (get_line m.console) 0

-- The branch of the newline.
unfoldable pub enter : World → Machine → Result Machine
unfolding perform prompt clear_line
enter w m = perform (execute_command (line_of m)) w (output (char 10 ∷ []) m) >>= λ m'.
    say (prompt m'.mode) (record m' { console = clear_line m'.console })

-- What the loop does with the next character.
unfoldable pub take_char : ℕ → World → Machine → Result Machine
unfolding enter
take_char c w m = if c == 10 then enter w m else ok (record m { console = handle_char c m.console })

-- One turn of the loop of `shell_update`, for which a character waits.
unfoldable pub turn : World → Machine → Result Machine
unfolding take_char getchar
turn w m = take_char (getchar m.keyboard).0 w (record m { keyboard = (getchar m.keyboard).1 })

-- The loop, with a bound on its turns.
unfoldable pub shell_update : ℕ → World → Machine → Result Machine
shell_update zero w m = out_of_fuel
shell_update (suc k) w m = if has_input m.keyboard then (turn w m >>= shell_update k w) else ok m

-- The keyboard interrupt, with the byte that the port gives.
unfoldable pub key : ℕ → Machine → Machine
key scancode m =
    let (k, out) = irq_handler scancode m.keyboard in
    record m { keyboard = k; sent = m.sent ++ out }

-- A step of the running kernel. Interrupts come between the turns of the shell's loop; those of the
-- timer inside a handler are in its waits.
pub data Step (m : Machine) : Machine → Type 0 where
  pressed : (scancode : ℕ) → scancode < 256 → Step m (key scancode m)
  ticked : Step m (record m { timer = tick m.timer })
  turned : {m' : Machine} (w : World) → has_input m.keyboard ≡ true → turn w m ≡ ok m' → Step m m'

-- What the kernel reaches.
pub data Reached (m : Machine) : Machine → Type 0 where
  start : Reached m m
  after : {m' m'' : Machine} → Reached m m' → Step m' m'' → Reached m m''
