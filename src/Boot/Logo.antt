-- ===== src/Boot/Logo.antt =====
-- The columns of src/kernel/core/status.c and the size of the logo in src/kernel/core/boot.c.
use sometuffcoolpr.Prelude.{
  ℕ, zero, suc, ◌+◌, ◌-◌, ◌<◌, ◌≡◌, refl, ◌∙◌, List, [], ◌∷◌, arith, ltb, leb, ◌==◌, if◌then◌else◌,
  length, Bool-cases, inl, inr,
}
use sometuffcoolpr.Prelude.Text.{codes}
use sometuffcoolpr.Prelude.Pieces.{split}
use sometuffcoolpr.Str.{CString}
use sometuffcoolpr.Vga.{Vga, print}
use sometuffcoolpr.Vga.Cursor.{IsValid, Safe, putchar-column, print-Safe}
use sometuffcoolpr.Vga.Output.{then-Safe}
use sometuffcoolpr.Boot.{
  dots, status_align, status_column, width_from, get_logo_width, height_from, get_logo_height,
}

dot-column :
    (v : Vga)
    → IsValid v
    → v.column + 1 < 80
    → ((print (codes ".") v).column ≡ v.column + 1) × ((print (codes ".") v).row ≡ v.row)
unfolding print
dot-column v h room =
    putchar-column b'.' v (λ e. absurd (omega (arith, e))) (λ e. absurd (omega (arith, e))) h.row_in
      room

dots-column :
    (n : ℕ) (v : Vga)
    → IsValid v
    → v.column + n < 80
    → ((dots n v).column ≡ v.column + n) × ((dots n v).row ≡ v.row)
unfolding dots
dots-column zero v h room = (omega arith, refl)
dots-column (suc n) v h room =
    let w = print (codes ".") v in
    let (col, row) = dot-column v h (omega arith) in
    let (col', row') = dots-column n w (print-Safe (codes ".") v h).0 (omega (arith, col, room)) in
    (omega (arith, col, col'), row' ∙ row)

dots-Safe : (n : ℕ) (v : Vga) → IsValid v → Safe v (dots n v)
unfolding dots
dots-Safe zero v h = (h, λ a out. refl)
dots-Safe (suc n) v h =
    let safe = print-Safe (codes ".") v h in
    then-Safe v (print (codes ".") v) _ safe (dots-Safe n (print (codes ".") v) safe.0)

pub status_align-Safe : (v : Vga) → IsValid v → Safe v (status_align v)
unfolding status_align
status_align-Safe v h = elim (Bool-cases (leb 60 v.column)) [
  | inl right ↦ rw right (h, λ a out. refl)
  | inr left ↦ rw left (dots-Safe (60 - v.column) v h)
]

-- With the cursor on the screen, `status_align` leaves it in its row, in the status column if it
-- stood left of it, and in its column otherwise.
pub status_align-column :
    (v : Vga)
    → IsValid v
    → ((status_align v).column ≡ (if leb status_column v.column then v.column else status_column))
      × ((status_align v).row ≡ v.row)
unfolding status_align
status_align-column v h = elim (Bool-cases (leb 60 v.column)) [
  | inl right ↦ rw right (refl, refl)
  | inr left ↦
      let (col, row) = dots-column (60 - v.column) v h (ground (arith, left)) in
      rw left (col ∙ ground (arith, left), row)
]

-- The length of the longest list.
abbrev pub widest : List (List ℕ) → ℕ
widest [] = 0
widest (line ∷ rest) = if ltb (widest rest) (length line) then length line else widest rest

width_from_lem :
    (max current : ℕ) (logo : CString)
    → let (first, others) = split b'\n' logo in
      let here : ℕ =
        if ltb (widest others) (current + length first)
        then current + length first
        else widest others in
      width_from max current logo ≡ (if ltb max here then here else max)
unfolding width_from split
width_from_lem max current [] = ground arith
width_from_lem max current (c ∷ logo) = elim (Bool-cases (c == b'\n')) [
  | inl nl ↦ rw nl (width_from_lem (if ltb max current then current else max) 0 logo ∙ ground arith)
  | inr plain ↦ rw plain (width_from_lem max (current + 1) logo ∙ ground arith)
]

height_from_lem :
    (lines : ℕ) (logo : CString) → height_from lines logo ≡ lines + length (split b'\n' logo).1
unfolding height_from split
height_from_lem lines [] = omega arith
height_from_lem lines (c ∷ logo) = elim (Bool-cases (c == b'\n')) [
  | inl nl ↦ rw nl (height_from_lem (lines + 1) logo ∙ omega arith)
  | inr plain ↦ rw plain (height_from_lem lines logo)
]

-- The logo's width is that of its longest line, and its height the number of its lines.
pub get_logo-size :
    (logo : CString)
    → let (first, others) = split b'\n' logo in
      (get_logo_width logo ≡ widest (first ∷ others))
      × (get_logo_height logo ≡ length (first ∷ others))
unfolding get_logo_width get_logo_height
get_logo-size logo = (width_from_lem 0 0 logo ∙ ground arith, height_from_lem 1 logo ∙ omega arith)
