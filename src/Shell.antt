-- ===== src/Shell.antt =====
-- The command line of src/kernel/shell/shell.c.
pub mod Parse
pub mod Commands
pub mod Run
mod Tests
use sometuffcoolpr.Prelude.{
  ℕ, zero, suc, ◌+◌, Option, none, some, List, [], ◌∷◌, leb, ◌==◌, if◌then◌else◌, length,
}
use sometuffcoolpr.Prelude.Text.{codes}
use sometuffcoolpr.Prelude.Pieces.{skip, piece, behind, tail}
use sometuffcoolpr.Str.{CString, strcmp}
use sometuffcoolpr.Fs.Ramfs.{is_zero}

abbrev pub max_args : ℕ
max_args = 8

abbrev pub space : ℕ
space = b' '

-- `argv`, with room for `n` more arguments: each is the text from its pointer to the NUL that the
-- loop puts behind it.
unfoldable pub parse_arguments : ℕ → CString → List CString
unfolding skip piece behind
parse_arguments zero input = []
parse_arguments (suc n) input = elim (skip space input) [
  | [] ↦ []
  | d ∷ ds ↦ piece space (d ∷ ds) ∷ parse_arguments n (tail (behind space (d ∷ ds)))
]

-- The names of `commands`, in order.
abbrev pub commands : List CString
commands =
    codes "help"
    ∷ codes "panic"
    ∷ codes "state"
    ∷ codes "uptime"
    ∷ codes "cpuid"
    ∷ codes "meminfo"
    ∷ codes "heapinfo"
    ∷ codes "alloc"
    ∷ codes "free"
    ∷ codes "freelast"
    ∷ codes "memdump"
    ∷ codes "heapval"
    ∷ codes "sysfetch"
    ∷ codes "shutdown"
    ∷ codes "reboot"
    ∷ codes "clear"
    ∷ codes "echo"
    ∷ codes "calc"
    ∷ codes "asciitoint"
    ∷ codes "inttoascii"
    ∷ codes "mk"
    ∷ codes "mkr"
    ∷ codes "rd"
    ∷ codes "write"
    ∷ codes "ls"
    ∷ codes "cd"
    ∷ codes "cur"
    ∷ []

-- What `execute_command` does: nothing, a handler with its arguments, the message that the command is
-- unknown, or a write behind `local_buffer`.
pub data Action : Type 0 where
  nothing : Action
  run : ℕ → List CString → Action
  unknown : Action
  overflow : Action

-- The loop over the table from its entry `i`.
unfoldable pub find_command : CString → List CString → ℕ → Option ℕ
unfolding strcmp
find_command name [] i = none
find_command name (command ∷ rest) i =
    let found = find_command name rest (i + 1) in
    if is_zero (strcmp name command) == 1 then some i else found

unfoldable pub dispatch : List CString → Action
unfolding find_command
dispatch [] = nothing
dispatch (name ∷ args) = elim (find_command name commands 0) [
  | none ↦ unknown
  | some i ↦ run i (name ∷ args)
]

unfoldable pub execute_command : CString → Action
unfolding parse_arguments dispatch
execute_command input =
    if leb 256 (length input) then overflow else dispatch (parse_arguments max_args input)
