-- ===== src/Shell/Commands/Joined.antt =====
-- What the commands that join their arguments do with them.
use sometuffcoolpr.Prelude.{
  ℕ, ◌+◌, ◌<◌, ◌≡◌, refl, sym, ◌∙◌, ap, true, List, [], ◌∷◌, ◌++◌, arith, leb, ltb, if◌then◌else◌,
  length, length-append, Bool-cases, inl, inr,
}
use sometuffcoolpr.Prelude.Text.{codes}
use mathlib.Core.List.{append-nil, append_assoc}
use sometuffcoolpr.Str.{CString}
use sometuffcoolpr.Vga.Output.{text}
use sometuffcoolpr.Fs.{ok, fault, panic}
use sometuffcoolpr.Machine.{Machine, World, say}
use sometuffcoolpr.Shell.Commands.{join_args}
use sometuffcoolpr.Shell.Commands.Screen.{rest_of, cmd_echo, cmd_panic}

-- The words with a space between each two.
abbrev pub joined : List CString → CString
joined [] = []
joined (a ∷ []) = a
joined (a ∷ b ∷ args) = a ++ (b' ' ∷ joined (b ∷ args))

join_args-joined :
    (room : ℕ) (buffer : CString) (args : List CString)
    → join_args room buffer args
      ≡ (if leb room (length (buffer ++ joined args)) then fault else ok (buffer ++ joined args))
unfolding join_args
join_args-joined room buffer [] = rw (append-nil buffer) refl
join_args-joined room buffer (a ∷ []) = refl
join_args-joined room buffer (a ∷ b ∷ args) =
    let next = buffer ++ (a ++ (b' ' ∷ [])) in
    let all = buffer ++ (a ++ (b' ' ∷ joined (b ∷ args))) in
    let e : next ++ joined (b ∷ args) ≡ all = simp (append_assoc) in
    let rest : join_args room next (b ∷ args) ≡ (if leb room (length all) then fault else ok all) =
      join_args-joined room next (b ∷ args)
      ∙ ap (λ (s : CString). if leb room (length s) then fault else ok s) e in
    let longer : length all ≡ length next + length (joined (b ∷ args)) =
      ap length (sym e) ∙ length-append next (joined (b ∷ args)) in
    elim (Bool-cases (leb room (length next))) [
      | inl past ↦
          let past_all : leb room (length all) ≡ true = ground (arith, past, longer) in
          rw (past, past_all) refl
      | inr fits ↦ rw fits rest
    ]

rest_of-few : (argv : List CString) → length argv < 2 → rest_of argv ≡ []
rest_of-few [] few = refl
rest_of-few (a ∷ []) few = refl
rest_of-few (a ∷ b ∷ args) few = absurd (omega (arith, few))

-- `echo` prints its arguments with a space between each two, and a newline, where they fit its
-- buffer of 1024 bytes; `panic` panics where its arguments, joined so, fit its buffer of 128 bytes.
-- Where they do not fit, either writes behind its buffer.
pub cmd_echo-joined :
    (argv : List CString) (w : World) (m : Machine)
    → (cmd_echo argv w m ≡ (
        if leb 1024 (length (joined (rest_of argv)))
        then fault
        else say (text (joined (rest_of argv)) ∷ text (codes "\n") ∷ []) m))
      × (cmd_panic argv w m ≡ (if leb 128 (length (joined (rest_of argv))) then fault else panic))
unfolding cmd_echo cmd_panic
cmd_echo-joined argv w m = (
  rw (join_args-joined 1024 [] (rest_of argv))
      (elim (Bool-cases (leb 1024 (length (joined (rest_of argv))))) [
        | inl past ↦ rw past refl
        | inr fits ↦ rw fits refl
      ]),
  elim (Bool-cases (ltb (length argv) 2)) [
    | inl few ↦ rw (few, rest_of-few argv (ground (arith, few))) refl
    | inr more ↦
        rw (more, join_args-joined 128 [] (rest_of argv))
          (elim (Bool-cases (leb 128 (length (joined (rest_of argv))))) [
            | inl past ↦ rw past refl
            | inr fits ↦ rw fits refl
          ])
  ],
)
