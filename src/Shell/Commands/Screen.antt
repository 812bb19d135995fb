-- ===== src/Shell/Commands/Screen.antt =====
-- The handlers that print, and those that end the run.
use sometuffcoolpr.Prelude.{
  ◌&&◌, ℕ, ◌+◌, ◌-◌, ◌*◌, ◌%◌, ◌^◌, Bool, List, [], ◌∷◌, ◌++◌, ltb, ◌==◌, if◌then◌else◌, length,
  not,
}
use sometuffcoolpr.Prelude.Text.{codes}
use sometuffcoolpr.Str.{CString, atoi, utoa, strcmp, char_at}
use sometuffcoolpr.Vga.Output.{Item, text, dec, char, colored, wipe, cursor_off, cursor_on}
use sometuffcoolpr.Time.{get_seconds}
use sometuffcoolpr.Pmm.{get_total_frames, get_free_frames}
use sometuffcoolpr.Fs.{Result, ok, panic, ◌>>=◌}
use sometuffcoolpr.Fs.Ramfs.{is_zero}
use sometuffcoolpr.Debug.{debug_print_segments}
use sometuffcoolpr.Machine.{Machine, World, say, output}
use sometuffcoolpr.Shell.Commands.{Handler, arg, text_at, join_args, pause, finished}

-- The lines that a handler prints, one call each.
abbrev pub lines : List CString → List Item
lines [] = []
lines (s ∷ ss) = text s ∷ lines ss

unfoldable pub cmd_cur : Handler
unfolding atoi
cmd_cur argv w m =
    let preset : ℕ = atoi (arg argv 1) in
    let shape : ℕ → ℕ → List Item → List Item =
      λ start end message. cursor_on w.inb1 w.inb2 start end ∷ message in
    if not (length argv == 2)
    then say (text (codes "Usage: cur <0-4>\n") ∷ []) m
    else if preset == 0
    then say (cursor_off ∷ text (codes "Cursor: disabled\n") ∷ []) m
    else if preset == 1
    then say (shape 14 15 (text (codes "Cursor: underline\n") ∷ [])) m
    else if preset == 2
    then say (shape 8 15 (text (codes "Cursor: half block\n") ∷ [])) m
    else if preset == 3
    then say (shape 0 15 (text (codes "Cursor: full block\n") ∷ [])) m
    else if preset == 4
    then say (shape 15 15 (text (codes "Cursor: thin line\n") ∷ [])) m
    else say (text (codes "Invalid preset (1-4)\n") ∷ []) m

-- The loop over the arguments; a code above 255 (a negative one is such a bit pattern) ends it, with
-- the characters before it printed.
unfoldable pub ascii_of : List CString → List Item
unfolding atoi
ascii_of [] = text (codes "\n") ∷ []
ascii_of (a ∷ args) =
    let rest = ascii_of args in
    if ltb 255 (atoi a) then text (codes "Invalid ASCII code\n") ∷ [] else char (atoi a) ∷ rest

abbrev pub rest_of : List CString → List CString
rest_of [] = []
rest_of (a ∷ args) = args

unfoldable pub cmd_inttoascii : Handler
unfolding ascii_of
cmd_inttoascii argv w m =
    if ltb (length argv) 2
    then say (text (codes "Usage: inttoascii <ascii codes...>\n") ∷ []) m
    else say (text (codes "ASCII: ") ∷ ascii_of (rest_of argv)) m

-- `(int)c` for a signed character, as the `uint32_t` that is printed.
abbrev pub promoted : ℕ → ℕ
promoted c = if ltb c 128 then c else 2 ^ 32 - 256 + c

unfoldable pub char_codes : CString → List Item
char_codes [] = text (codes "\n") ∷ []
char_codes (c ∷ s) = text (codes " ") ∷ dec (promoted c) ∷ char_codes s

unfoldable pub cmd_asciitoint : Handler
unfolding char_codes
cmd_asciitoint argv w m =
    if not (length argv == 2)
    then say (text (codes "Usage: asciitoint <anything>\n") ∷ []) m
    else say (text (codes "\nASCII code: ") ∷ char_codes (arg argv 1)) m

-- The result of an operator but the division, modulo 2 ^ 32.
unfoldable pub calculate : (op a b : ℕ) → ℕ
calculate op a b =
    if op == b'+'
    then (a + b) % 2 ^ 32
    else if op == b'-'
    then (a + 2 ^ 32 - b) % 2 ^ 32
    else if op == b'*'
    then a * b % 2 ^ 32
    else 0

-- The `return` of the division is reached whatever the divisor. The least `int` over -1 is a divide
-- error, which `isr_handler` ends in a panic. `utoa` gets the memory of `buf` and
-- fuel for the digits of any `uint32_t`.
unfoldable pub cmd_calc : Handler
unfolding atoi calculate text_at finished
cmd_calc argv w m =
    let a : ℕ = atoi (arg argv 1) in
    let b : ℕ = atoi (arg argv 3) in
    let op : ℕ = char_at (arg argv 2) in
    if not (length argv == 4)
    then say (text (codes "Usage: eval <a> <op> <b>\n") ∷ []) m
    else if op == b'/'
    then (if b == 0
        then say (text (codes "Division by zero!\n") ∷ []) m
        else if (a == 2 ^ 31) && (b == 2 ^ 32 - 1)
        then panic
        else ok m)
    else finished (utoa (2 ^ 32) w.raw (calculate op a b) 0 10) >>= λ buf.
        say (text (text_at 32 buf 0) ∷ text (codes "\n") ∷ []) m

unfoldable pub cmd_echo : Handler
unfolding join_args
cmd_echo argv w m =
    join_args 1024 [] (rest_of argv) >>= λ buffer. say (text buffer ∷ text (codes "\n") ∷ []) m

unfoldable pub cmd_clear : Handler
cmd_clear argv w m = say (wipe ∷ []) m

unfoldable pub cmd_cpuid : Handler
cmd_cpuid argv w m = say (text (codes "CPU: ") ∷ text w.brand ∷ text (codes "\n") ∷ []) m

unfoldable pub cmd_uptime : Handler
unfolding get_seconds
cmd_uptime argv w m =
    say (text (codes "Uptime: ") ∷ dec (get_seconds m.timer) ∷ text (codes " seconds\n") ∷ []) m

unfoldable pub help_overview : List Item
help_overview = lines (
    codes "[SYS]\n"
    ∷ codes " help      sysfetch   cpuid\n"
    ∷ codes " uptime    state      panic\n"
    ∷ codes " shutdown  reboot     clear\n"
    ∷ codes "\n[MEM]\n"
    ∷ codes " meminfo   heapinfo   heapval\n"
    ∷ codes " alloc     free       freelast\n"
    ∷ codes " memdump\n"
    ∷ codes "\n[UTIL]\n"
    ∷ codes " echo      calc       encur\n"
    ∷ codes " asciitoint inttoascii\n"
    ∷ [])

unfoldable pub help_sys : List Item
help_sys = lines (
    codes "[SYS]\n"
    ∷ codes " help\n"
    ∷ codes " sysfetch\n"
    ∷ codes " cpuid\n"
    ∷ codes " uptime\n"
    ∷ codes " state\n"
    ∷ codes " panic <msg>\n"
    ∷ codes " shutdown\n"
    ∷ codes " reboot\n"
    ∷ codes " clear\n"
    ∷ [])

unfoldable pub help_mem : List Item
help_mem = lines (
    codes "[MEM]\n"
    ∷ codes " meminfo\n"
    ∷ codes " heapinfo\n"
    ∷ codes " heapval\n"
    ∷ codes " alloc <size>\n"
    ∷ codes " free <addr>\n"
    ∷ codes " freelast\n"
    ∷ codes " memdump <addr> <n>\n"
    ∷ [])

unfoldable pub help_util : List Item
help_util = lines (
    codes "[UTIL]\n"
    ∷ codes " echo <text>\n"
    ∷ codes " calc <a> <op> <b>\n"
    ∷ codes " cur <0-4>\n"
    ∷ codes " asciitoint <text>\n"
    ∷ codes " inttoascii <nums>\n"
    ∷ codes "\ncur presets:\n"
    ∷ codes " 0 - disabled\n"
    ∷ codes " 1 - underline\n"
    ∷ codes " 2 - half block\n"
    ∷ codes " 3 - full block\n"
    ∷ codes " 4 - thin line\n"
    ∷ [])

-- `strcmp(a, b) == 0`
abbrev pub same : CString → CString → Bool
same a b = is_zero (strcmp a b) == 1

unfoldable pub cmd_help : Handler
cmd_help argv w m =
    if length argv == 1
    then say help_overview m
    else if same (arg argv 1) (codes "sys")
    then say help_sys m
    else if same (arg argv 1) (codes "mem")
    then say help_mem m
    else if same (arg argv 1) (codes "util")
    then say help_util m
    else say (text (codes "Unknown help category\n") ∷ []) m

abbrev pub kernel_version : CString
kernel_version = codes "0.1.1-dev"

abbrev pub boot_logo_color : ℕ
boot_logo_color = 0x0B

abbrev pub boot_logo : CString
boot_logo =
    codes "---------------------------------------\n"
    ++ (codes "  __                          _   __ \n"
        ++ (codes " (_  ._   _. _|_     |  _.   / \\ (_  \n"
            ++ (codes " __) |_) (_|  |_ |_| | (_|   \\_/ __) \n"
                ++ (codes "     |                                \n"
                    ++ codes "---------------------------------------\n\n"))))

unfoldable pub mode_name : ℕ → CString
mode_name mode =
    if mode == 0 then codes "kernel\n" else if mode == 1 then codes "root\n" else codes "user\n"

-- A difference of `uint32_t`.
abbrev pub minus : ℕ → ℕ → ℕ
minus a b = (a + 2 ^ 32 - b) % 2 ^ 32

unfoldable pub cmd_sysfetch : Handler
unfolding get_seconds get_total_frames mode_name
cmd_sysfetch argv w m =
    let total : ℕ = get_total_frames m.pmm in
    let free : ℕ = get_free_frames m.pmm in
    say
      (colored boot_logo boot_logo_color
        ∷ colored (codes "Kernel build date: ") boot_logo_color
        ∷ colored w.build_date 0xC
        ∷ colored (codes "\nVersion: ") boot_logo_color
        ∷ colored kernel_version 0xC
        ∷ text (codes "\n\nCPU:        ")
        ∷ text w.brand
        ∷ text (codes "\n")
        ∷ text (codes "Uptime:     ")
        ∷ dec (get_seconds m.timer)
        ∷ text (codes " seconds\n")
        ∷ text (codes "Memory:     ")
        ∷ dec (minus total free)
        ∷ text (codes "/")
        ∷ dec total
        ∷ text (codes " frames used\n")
        ∷ text (codes "Mode:       ")
        ∷ text (mode_name m.mode)
        ∷ [])
      m

-- The message is joined in a buffer of 128 bytes.
unfoldable pub cmd_panic : Handler
unfolding join_args
cmd_panic argv w m =
    if ltb (length argv) 2 then panic else (join_args 128 [] (rest_of argv) >>= λ buffer. panic)

unfoldable pub cmd_state : Handler
cmd_state argv w m = say (debug_print_segments w.cpu) m

-- The port write, and `sleep(1000)`.
unfoldable pub send_and_pause : (port value : ℕ) → World → Machine → Result Machine
unfolding pause
send_and_pause port value w m = pause 1000 w (record m { sent = m.sent ++ ((port, value) ∷ []) })

-- A port write that ends the run is `sent`; what follows is for the case that it does not.
unfoldable pub cmd_shutdown : Handler
unfolding send_and_pause
cmd_shutdown argv w m =
    send_and_pause 0x604 0x2000 w (output (text (codes "Shutting down...\n") ∷ []) m) >>= λ m'.
    say (colored (codes "Unable to shutdown\n") 0xC ∷ []) m'

unfoldable pub cmd_reboot : Handler
unfolding send_and_pause
cmd_reboot argv w m =
    send_and_pause 0x64 0xFE w (output (text (codes "Rebooting...\n") ∷ []) m) >>= λ m'.
    say (colored (codes "Unable to reboot\n") 0xC ∷ []) m'
