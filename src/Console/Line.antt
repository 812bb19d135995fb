-- ===== src/Console/Line.antt =====
-- The line that the buffer of the console (src/kernel/core/console.c) holds.
use native.Mathlib.Nat.{le_refl}
use sometuffcoolpr.Prelude.{
  ℕ, zero, suc, ◌+◌, ◌-◌, ◌≤◌, ◌<◌, ◌≡◌, ◌≢◌, refl, ◌∙◌, sym, subst, true, false, ◌&&◌, List, [],
  ◌∷◌, ◌++◌, arith, ltb, leb, ◌==◌, if◌then◌else◌, get_or, length, length-append, Bool-cases, inl,
  inr, ==_ne, ==_eq,
}
use sometuffcoolpr.Prelude.Memory.{Memory, write}
use sometuffcoolpr.Vga.Cursor.{IsValid, Safe, putchar-Safe}
use sometuffcoolpr.Str.Copy.{Holds}
use sometuffcoolpr.Str.Number.{All, All-append, get_or-append, Holds-of_bytes}
use sometuffcoolpr.Console.{
  Console, console_buffer_size, zero_from, init, handle_char, get_line, clear_line,
}

-- The buffer holds the characters of the line and is zero behind them, up to its end.
pub record IsLine (k : Console) (line : List ℕ) : Type 0 where
  pub size : k.line_length ≡ length line
  pub fits : length line < console_buffer_size
  pub text : All (λ c. c ≢ 0) line
  pub holds : (i : ℕ) → i < console_buffer_size → k.line_buffer i ≡ get_or line i 0

-- All but the last character.
pub drop_last : List ℕ → List ℕ
drop_last [] = []
drop_last (c ∷ []) = []
drop_last (c ∷ d ∷ line) = c ∷ drop_last (d ∷ line)

-- What a character other than a newline does to the line: a backspace erases the last character, and
-- a full line takes no more.
pub edit : ℕ → List ℕ → List ℕ
unfolding drop_last
edit c line =
    if c == 8 then drop_last line else if ltb (length line) 255 then line ++ (c ∷ []) else line

length-drop_last : (line : List ℕ) → length (drop_last line) ≡ length line - 1
unfolding drop_last
length-drop_last [] = refl
length-drop_last (c ∷ []) = refl
length-drop_last (c ∷ d ∷ line) = omega (arith, length-drop_last (d ∷ line))

get_or-drop_last :
    (line : List ℕ) (i : ℕ)
    → get_or (drop_last line) i 0 ≡ (if i + 1 == length line then 0 else get_or line i 0)
unfolding drop_last
get_or-drop_last [] i = ground arith
get_or-drop_last (c ∷ []) zero = refl
get_or-drop_last (c ∷ []) (suc i) = ground arith
get_or-drop_last (c ∷ d ∷ line) zero = ground arith
get_or-drop_last (c ∷ d ∷ line) (suc i) = ground (arith, get_or-drop_last (d ∷ line) i)

All-drop_last : (line : List ℕ) → All (λ c. c ≢ 0) line → All (λ c. c ≢ 0) (drop_last line)
unfolding drop_last
All-drop_last [] h = h
All-drop_last (c ∷ []) h = tt
All-drop_last (c ∷ d ∷ line) h = (h.0, All-drop_last (d ∷ line) h.1)

get_or-beyond : (line : List ℕ) (i : ℕ) → length line ≤ i → get_or line i 0 ≡ 0
get_or-beyond [] i h = refl
get_or-beyond (c ∷ line) zero h = absurd (omega arith)
get_or-beyond (c ∷ line) (suc i) h = get_or-beyond line i (omega arith)

erase-IsLine :
    (k : Console) (line : List ℕ) → IsLine k line → IsLine (handle_char 8 k) (drop_last line)
unfolding handle_char
erase-IsLine k line r = elim (Bool-cases (ltb 0 k.line_length)) [
  | inl some_left ↦ rw some_left (record {
    size = omega (arith, r.size, length-drop_last line);
    fits = omega (arith, r.fits, length-drop_last line);
    text = All-drop_last line r.text;
    holds = λ i lt. ground (arith, r.holds i lt, get_or-drop_last line i, r.size);
  })
  | inr empty ↦ rw empty (record {
    size = ground (arith, r.size, length-drop_last line);
    fits = omega (arith, r.fits, length-drop_last line);
    text = All-drop_last line r.text;
    holds = λ i lt. ground (arith, r.holds i lt, get_or-drop_last line i, r.size);
  })
]

type-IsLine :
    (c : ℕ) (k : Console) (line : List ℕ)
    → c ≢ 0
    → c ≢ 8
    → c ≢ 10
    → IsLine k line
    → IsLine (handle_char c k) (if ltb (length line) 255 then line ++ (c ∷ []) else line)
unfolding handle_char
type-IsLine c k line nz nb nn r = elim (Bool-cases (ltb (length line) 255)) [
  | inl room ↦
      let e : ltb k.line_length 255 ≡ true = ground (arith, r.size, room) in
      rw (==_ne c 8 nb, ==_ne c 10 nn, e, room)
        (record {
          size = omega (arith, r.size, length-append line (c ∷ []));
          fits = ground (arith, length-append line (c ∷ []));
          text = All-append _ line (c ∷ []) r.text (nz, tt);
          holds = λ i lt.
              ground (
                arith,
                r.size,
                r.holds i lt,
                get_or-append line (c ∷ []) i 0,
                get_or-beyond line i,
              );
        })
  | inr full ↦
      let e : ltb k.line_length 255 ≡ false = ground (arith, r.size, full) in
      rw (==_ne c 8 nb, ==_ne c 10 nn, e, full) r
]

-- Every character but NUL and newline edits the line that the buffer holds: the buffer never
-- overflows and stays NUL-terminated.
pub handle_char-edit :
    (c : ℕ) (k : Console) (line : List ℕ)
    → c ≢ 0
    → c ≢ 10
    → IsLine k line
    → IsLine (handle_char c k) (edit c line)
unfolding edit
handle_char-edit c k line nz nn r = elim (Bool-cases (c == 8)) [
  | inl bs ↦ rw bs (
      subst (λ (x : ℕ). IsLine (handle_char x k) (drop_last line)) (sym (==_eq c 8 bs))
        (erase-IsLine k line r))
  | inr other ↦ rw other (type-IsLine c k line nz (ground arith) nn r)
]

zero_from_lem :
    (n i : ℕ) (m : Memory) (a : ℕ)
    → zero_from n i m a ≡ (if leb i a && ltb a (i + n) then 0 else m a)
unfolding zero_from
zero_from_lem zero i m a = ground arith
zero_from_lem (suc n) i m a = ground (arith, zero_from_lem n (i + 1) (write m i 0) a)

-- `console_init` and `console_clear_line` leave the empty line, whatever the buffer held.
pub clear-IsLine : (k : Console) → IsLine (init k) [] × IsLine (clear_line k) []
unfolding init clear_line
clear-IsLine k =
    let z : (i : ℕ) → i < 256 → zero_from 256 0 k.line_buffer i ≡ 0 =
      λ i lt. ground (arith, zero_from_lem 256 0 k.line_buffer i) in
    (
      record { size = refl; fits = omega arith; text = tt; holds = z },
      record { size = refl; fits = omega arith; text = tt; holds = z },
    )

-- `console_get_line` is the typed line as a NUL-terminated string.
pub get_line-Holds : (k : Console) (line : List ℕ) → IsLine k line → Holds (get_line k) 0 line
unfolding get_line
get_line-Holds k line r =
    let at_zero : (i : ℕ) → 0 + i ≡ i = λ i. omega arith in
    Holds-of_bytes line 0 k.line_buffer (λ i lt. rw (at_zero i) (r.holds i (omega (arith, r.fits))))
      r.text
      (rw (at_zero (length line))
        (r.holds (length line) r.fits ∙ get_or-beyond line (length line) (le_refl (length line))))

-- The echo of a character stays on the screen.
pub handle_char-Safe :
    (c : ℕ) (k : Console) → IsValid k.screen → Safe k.screen (handle_char c k).screen
unfolding handle_char
handle_char-Safe c k h =
    let kept : Safe k.screen k.screen = (h, λ a out. refl) in
    elim (Bool-cases (c == 8)) [
      | inl bs ↦ rw bs (elim (Bool-cases (ltb 0 k.line_length)) [
        | inl some_left ↦ rw some_left (putchar-Safe 8 k.screen h)
        | inr empty ↦ rw empty kept
      ])
      | inr other ↦ rw other (elim (Bool-cases (c == 10)) [
        | inl nl ↦ rw nl (putchar-Safe 10 k.screen h)
        | inr plain ↦ rw plain (elim (Bool-cases (ltb k.line_length 255)) [
          | inl room ↦ rw room (putchar-Safe c k.screen h)
          | inr full ↦ rw full kept
        ])
      ])
    ]
