-- ===== src/Vga/Output.antt =====
-- A sequence of calls that print, as the list of what each is given.
use sometuffcoolpr.Prelude.{ℕ, ◌+◌, ◌≡◌, refl, ◌∙◌, List, [], ◌∷◌, ◌++◌}
use sometuffcoolpr.Str.{CString}
use sometuffcoolpr.Vga.{
  Vga, print, print_dec, print_hex, print_color, putchar, clear, set_color, set_cursor,
  disable_cursor, enable_cursor, hex_buffer,
}
use sometuffcoolpr.Str.Number.{numeral}
use sometuffcoolpr.Vga.Print.{print_dec-numeral}
use sometuffcoolpr.Vga.Cursor.{
  IsValid, Safe, print-Safe, putchar-Safe, clear-Safe, set_cursor-IsValid,
}

pub data Item : Type 0 where
  text : CString → Item
  dec hex char color : ℕ → Item
  colored : CString → ℕ → Item
  wipe : Item
  move : (row col : ℕ) → Item
  cursor_off : Item
  cursor_on : (inb1 inb2 start end : ℕ) → Item

-- The call.
unfoldable pub perform : Item → Vga → Vga
unfolding print print_dec print_hex print_color set_color set_cursor disable_cursor enable_cursor
perform (text s) v = print s v
perform (dec n) v = print_dec n v
perform (hex n) v = print_hex n v
perform (char c) v = putchar c v
perform (color c) v = set_color c v
perform (colored s c) v = print_color s c v
perform wipe v = clear v
perform (move row col) v = set_cursor row col v
perform cursor_off v = disable_cursor v
perform (cursor_on inb1 inb2 start end) v = enable_cursor inb1 inb2 start end v

unfoldable pub show : List Item → Vga → Vga
show [] v = v
show (i ∷ is) v = show is (perform i v)

keeps : (v : Vga) → IsValid v → Safe v v
keeps v h = (h, λ a out. refl)

pub then-Safe : (u v w : Vga) → Safe u v → Safe v w → Safe u w
then-Safe u v w (h, s) (h', s') = (h', λ a out. s' a out ∙ s a out)

perform-Safe : (i : Item) (v : Vga) → IsValid v → Safe v (perform i v)
unfolding perform
perform-Safe (text s) v h = print-Safe s v h
perform-Safe (dec n) v h = rw (print_dec-numeral n v) (print-Safe (numeral 10 (n + 1) n) v h)
perform-Safe (hex n) v h = print-Safe (hex_buffer n) v h
perform-Safe (char c) v h = putchar-Safe c v h
perform-Safe (color c) v h = (record { row_in = h.row_in; column_in = h.column_in }, λ a out. refl)
perform-Safe (colored s c) v h =
    let (ok, safe) =
      print-Safe s (record v { color = c })
        (record { row_in = h.row_in; column_in = h.column_in }) in
    (record { row_in = ok.row_in; column_in = ok.column_in }, safe)
perform-Safe wipe v h = clear-Safe v
perform-Safe (move row col) v h = (set_cursor-IsValid row col v h, λ a out. refl)
perform-Safe cursor_off v h = (record { row_in = h.row_in; column_in = h.column_in }, λ a out. refl)
perform-Safe (cursor_on inb1 inb2 start end) v h =
    (record { row_in = h.row_in; column_in = h.column_in }, λ a out. refl)

-- Whatever is printed, the cursor stays on the screen and no cell beyond it is written.
pub show-Safe : (is : List Item) (v : Vga) → IsValid v → Safe v (show is v)
unfolding show
show-Safe [] v h = keeps v h
show-Safe (i ∷ is) v h =
    let safe = perform-Safe i v h in
    then-Safe v (perform i v) (show is (perform i v)) safe (show-Safe is (perform i v) safe.0)

pub show-append : (is js : List Item) (v : Vga) → show (is ++ js) v ≡ show js (show is v)
unfolding show
show-append [] js v = refl
show-append (i ∷ is) js v = show-append is js (perform i v)
