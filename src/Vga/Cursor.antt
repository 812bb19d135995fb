-- ===== src/Vga/Cursor.antt =====
-- The cursor of src/kernel/video/vga.c and the bounds of the text buffer.
use sometuffcoolpr.Prelude.{
  ℕ, zero, suc, ◌+◌, ◌-◌, ◌*◌, ◌≤◌, ◌<◌, ◌≡◌, ◌≢◌, refl, ◌∙◌, [], ◌∷◌, arith, leb, ◌==◌, Bool-cases,
  ==_ne, inl, inr,
}
use sometuffcoolpr.Prelude.Memory.{Memory, write}
use sometuffcoolpr.Str.{CString}
use sometuffcoolpr.Vga.{
  Vga, scroll_line, scroll_lines, fill, scroll, clear_lines, clear, newline, step_back, backspace,
  advance, put_plain, update_cursor, putchar, print, vga_entry, vga_width, vga_height, set_cursor,
  index,
}

-- The number of cells.
abbrev pub screen : ℕ
screen = 2000

pub record IsValid (v : Vga) : Type 0 where
  pub row_in : v.row < vga_height
  pub column_in : v.column < vga_width

-- No cell beyond the screen differs.
abbrev pub OnScreen : Memory → Memory → Type 0
OnScreen m m' = (a : ℕ) → screen ≤ a → m' a ≡ m a

-- A step of the driver: from a valid state to one, with writes on the screen only.
abbrev pub Safe : Vga → Vga → Type 0
Safe v v' = IsValid v' × OnScreen v.cells v'.cells

scroll_line-OnScreen :
    (n y x : ℕ) (m : Memory) → y < 26 → x + n ≤ 80 → OnScreen m (scroll_line n y x m)
unfolding scroll_line
scroll_line-OnScreen zero y x m hy hx a out = refl
scroll_line-OnScreen (suc n) y x m hy hx a out = ground (
  arith,
  scroll_line-OnScreen n y (x + 1) (write m ((y - 1) * vga_width + x) (m (y * vga_width + x))) hy
      (omega arith) a,
)

scroll_lines-OnScreen : (n y : ℕ) (m : Memory) → y + n ≤ 25 → OnScreen m (scroll_lines n y m)
unfolding scroll_lines
scroll_lines-OnScreen zero y m h a out = refl
scroll_lines-OnScreen (suc n) y m h a out =
    scroll_lines-OnScreen n (y + 1) (scroll_line vga_width y 0 m) (omega arith) a out
    ∙ scroll_line-OnScreen vga_width y 0 m (omega arith) (omega arith) a out

fill-OnScreen : (n i e : ℕ) (m : Memory) → i + n ≤ screen → OnScreen m (fill n i e m)
unfolding fill
fill-OnScreen zero i e m h a out = refl
fill-OnScreen (suc n) i e m h a out =
    ground (arith, fill-OnScreen n (i + 1) e (write m i e) (omega arith) a)

clear_lines-OnScreen : (n y e : ℕ) (m : Memory) → y + n ≤ 25 → OnScreen m (clear_lines n y e m)
unfolding clear_lines
clear_lines-OnScreen zero y e m h a out = refl
clear_lines-OnScreen (suc n) y e m h a out =
    clear_lines-OnScreen n (y + 1) e (fill vga_width (y * vga_width) e m) (omega arith) a out
    ∙ fill-OnScreen vga_width (y * vga_width) e m (omega arith) a out

-- `vga_scroll` makes a state valid whose cursor has left the last row.
scroll-Safe : (v : Vga) → v.column < vga_width → Safe v (scroll v)
unfolding scroll
scroll-Safe v h = elim (Bool-cases (leb vga_height v.row)) [
  | inl past ↦ rw past (
    record { row_in = omega arith; column_in = h },
    λ a out.
        fill-OnScreen vga_width ((vga_height - 1) * vga_width) (vga_entry b' ' v.color)
          (scroll_lines (vga_height - 1) 1 v.cells) (omega arith) a out
        ∙ scroll_lines-OnScreen (vga_height - 1) 1 v.cells (omega arith) a out,
  )
  | inr here ↦ rw here (record { row_in = ground arith; column_in = h }, λ a out. refl)
]

pub clear-Safe : (v : Vga) → Safe v (clear v)
unfolding clear
clear-Safe v = (
  record { row_in = omega arith; column_in = omega arith },
  clear_lines-OnScreen vga_height 0 _ v.cells (omega arith),
)

advance-column : (v : Vga) → (advance v).column < vga_width
unfolding advance
advance-column v = ground arith

backspace-Safe : (v : Vga) → IsValid v → Safe v (backspace v)
unfolding backspace step_back update_cursor
backspace-Safe v h = ground arith

newline-Safe : (v : Vga) → IsValid v → Safe v (newline v)
unfolding newline
newline-Safe v h = scroll-Safe (record v { column = 0; row = v.row + 1 }) (omega arith)

put_plain-Safe : (c : ℕ) (v : Vga) → IsValid v → Safe v (put_plain c v)
unfolding put_plain update_cursor advance
put_plain-Safe c v h =
    let w : Vga = record v { cells = write v.cells (index v) (vga_entry c v.color) } in
    let (ok, safe) = scroll-Safe (advance w) (advance-column w) in
    (record { row_in = ok.row_in; column_in = ok.column_in }, λ a out. safe a out ∙ ground arith)

-- From a cursor on the screen, `vga_putchar` leaves the cursor on the screen and writes no cell
-- beyond the screen, whatever the character (a newline and a backspace included).
pub putchar-Safe : (c : ℕ) (v : Vga) → IsValid v → Safe v (putchar c v)
unfolding putchar
putchar-Safe c v h = elim (Bool-cases (c == 10)) [
  | inl nl ↦ rw nl (newline-Safe v h)
  | inr other ↦ rw other (elim (Bool-cases (c == 8)) [
    | inl bs ↦ rw bs (backspace-Safe v h)
    | inr plain ↦ rw plain (put_plain-Safe c v h)
  ])
]

-- `vga_print` of any text keeps the cursor on the screen and writes no cell beyond it.
pub print-Safe : (s : CString) (v : Vga) → IsValid v → Safe v (print s v)
unfolding print
print-Safe [] v h = (h, λ a out. refl)
print-Safe (c ∷ s) v h =
    let (ok, safe) = putchar-Safe c v h in
    let (ok', safe') = print-Safe s (putchar c v) ok in (ok', λ a out. safe' a out ∙ safe a out)

pub set_cursor-IsValid : (row col : ℕ) (v : Vga) → IsValid v → IsValid (set_cursor row col v)
unfolding set_cursor
set_cursor-IsValid row col v h = ground arith

-- A plain character before the last column moves the cursor right.
pub putchar-column :
    (c : ℕ) (v : Vga)
    → c ≢ 10
    → c ≢ 8
    → v.row < vga_height
    → v.column + 1 < vga_width
    → ((putchar c v).column ≡ v.column + 1) × ((putchar c v).row ≡ v.row)
unfolding putchar put_plain update_cursor advance scroll
putchar-column c v nl bs row_in room = rw (==_ne c 10 nl, ==_ne c 8 bs) (ground arith)
