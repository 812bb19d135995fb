-- ===== src/Shell/Parse.antt =====
-- The words of a command line, and the command that they run.
use sometuffcoolpr.Prelude.{
  ℕ, zero, suc, ◌+◌, ◌<◌, ◌≡◌, ◌≢◌, refl, sym, ◌∙◌, ap, none, some, false, List, [], ◌∷◌, arith,
  leb, length, take, subst,
}
use sometuffcoolpr.Prelude.Pieces.{
  skip, piece, behind, tail, pieces, IsPiece, skip-IsPiece, pieces-skip, pieces-piece, pieces-tail,
}
use sometuffcoolpr.Prelude.Int.{pos}
use sometuffcoolpr.Str.{CString, strcmp}
use sometuffcoolpr.Str.Compare.{strcmp_self}
use sometuffcoolpr.Fs.Ramfs.Directory.{is_zero-false}
use sometuffcoolpr.Shell.{
  space, parse_arguments, commands, run, find_command, dispatch, execute_command, unknown, overflow,
  Action,
}

parse_word :
    (n : ℕ) (input : CString)
    → ((rest : CString) → parse_arguments n rest ≡ take n (pieces space rest))
    → IsPiece space input
    → (elim input as (λ x. List CString) [
      | [] ↦ []
      | d ∷ ds ↦ piece space (d ∷ ds) ∷ parse_arguments n (tail (behind space (d ∷ ds)))
    ])
      ≡ take (suc n) (pieces space input)
unfolding pieces
parse_word n [] parse_lem h = refl
parse_word n (d ∷ ds) parse_lem h =
    subst
      (λ (x : List CString).
        piece space (d ∷ ds) ∷ parse_arguments n (tail (behind space (d ∷ ds))) ≡ take (suc n) x)
      (sym (pieces-piece space d ds h))
      (ap (λ (x : List CString). piece space (d ∷ ds) ∷ x)
        (parse_lem (tail (behind space (d ∷ ds))) ∙ ap (take n) (pieces-tail space (d ∷ ds))))

-- `parse_arguments` gives the words between the spaces of the line, as many as there is room for.
pub parse_arguments-words :
    (n : ℕ) (input : CString) → parse_arguments n input ≡ take n (pieces space input)
unfolding parse_arguments
parse_arguments-words zero input = refl
parse_arguments-words (suc n) input =
    parse_word n (skip space input) (parse_arguments-words n) (skip-IsPiece space input)
    ∙ ap (take (suc n)) (pieces-skip space input)

-- The entry `i` is the first one with the name.
abbrev pub FirstAt : CString → List CString → ℕ → Type 0
FirstAt name [] i = ⊥
FirstAt name (command ∷ rest) zero = name ≡ command
FirstAt name (command ∷ rest) (suc i) = (strcmp name command ≢ pos 0) × FirstAt name rest i

find_command-FirstAt :
    (name : CString) (table : List CString) (i start : ℕ)
    → FirstAt name table i
    → find_command name table start ≡ some (start + i)
unfolding find_command
find_command-FirstAt name [] i start h = absurd h
find_command-FirstAt name (command ∷ rest) zero start h =
    rw (h, strcmp_self command) (ap some (omega arith))
find_command-FirstAt name (command ∷ rest) (suc i) start h =
    rw (is_zero-false (strcmp name command) h.0, find_command-FirstAt name rest i (start + 1) h.1)
      (ap some (omega arith))

-- A line whose first word is the name of the entry `i` of the table, and of none before it, runs the
-- handler of the entry with the first eight words of the line.
pub execute_command-runs :
    (input name : CString) (args : List CString) (i : ℕ)
    → length input < 256
    → pieces space input ≡ name ∷ args
    → FirstAt name commands i
    → execute_command input ≡ run i (name ∷ take 7 args)
unfolding execute_command dispatch
execute_command-runs input name args i short words first =
    let fits : leb 256 (length input) ≡ false = ground arith in
    let argv : parse_arguments 8 input ≡ name ∷ take 7 args =
      parse_arguments-words 8 input ∙ ap (take 8) words in
    let at_zero : 0 + i ≡ i = omega arith in
    let found : find_command name commands 0 ≡ some i =
      find_command-FirstAt name commands i 0 first ∙ ap some at_zero in
    rw (fits, argv) (rw (dispatch, found) refl)

dispatch-fits : (argv : List CString) → dispatch argv ≢ overflow
unfolding dispatch
dispatch-fits [] = λ e. cc e
dispatch-fits (name ∷ args) =
    elim (find_command name commands 0)
      as (λ x.
        (elim x as (λ y. Action) [ none ↦ unknown | some i ↦ run i (name ∷ args) ]) ≢ overflow) [
          | none ↦ λ e. cc e
          | some i ↦ λ e. cc e
        ]

-- A line of fewer than 256 characters fits the buffer of `execute_command`.
pub execute_command-fits : (input : CString) → length input < 256 → execute_command input ≢ overflow
unfolding execute_command
execute_command-fits input short =
    let fits : leb 256 (length input) ≡ false = ground arith in
    rw fits (dispatch-fits (parse_arguments 8 input))
