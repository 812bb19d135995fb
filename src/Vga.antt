-- ===== src/Vga.antt =====
-- src/kernel/video/vga.c: the text-mode driver. Its static variables are a record; the cells of the
-- text buffer are a function of the index from 0xB8000 on, so a write that misses the screen shows
-- as a changed cell at 2000 or above. What `outb` sends is logged, the oldest write last; what `inb`
-- answers is an argument.
pub mod Cursor
pub mod Scroll
pub mod Print
pub mod Output
mod Tests
use Prim.Native.Nat.{bit_and, bit_or}
use sometuffcoolpr.Prelude.{
  ℕ, zero, suc, ◌+◌, ◌-◌, ◌*◌, ◌/◌, ◌%◌, ◌^◌, List, [], ◌∷◌, ltb, leb, ◌==◌, if◌then◌else◌,
}
use sometuffcoolpr.Prelude.Memory.{Memory, write}
use sometuffcoolpr.Str.{CString}

abbrev pub vga_width : ℕ
vga_width = 80

abbrev pub vga_height : ℕ
vga_height = 25

abbrev pub default_terminal_color : ℕ
default_terminal_color = 0x07

pub record Vga : Type 0 where
  pub row : ℕ
  pub column : ℕ
  pub color : ℕ
  pub cells : Memory
  pub ports : List (ℕ × ℕ)

abbrev pub outb : ℕ → ℕ → Vga → Vga
outb port value v = record v { ports = (port, value) ∷ v.ports }

pub vga_entry : ℕ → ℕ → ℕ
vga_entry uc color = bit_or (uc % 256) (color % 256 * 2 ^ 8)

unfoldable pub disable_cursor : Vga → Vga
disable_cursor v = outb 0x3D5 0x20 (outb 0x3D4 0x0A v)

-- `inb1` and `inb2` are what the two reads of port 0x3D5 return.
unfoldable pub enable_cursor : (inb1 inb2 start end : ℕ) → Vga → Vga
enable_cursor inb1 inb2 start end v =
    outb 0x3D5 (bit_or (bit_and inb2 0xE0) end)
      (outb 0x3D4 0x0B (outb 0x3D5 (bit_or (bit_and inb1 0xC0) start) (outb 0x3D4 0x0A v)))

-- `pos` is a `uint16_t`.
pub update_cursor : Vga → Vga
update_cursor v =
    let pos : ℕ = (v.row * vga_width + v.column) % 2 ^ 16 in
    outb 0x3D5 (pos / 2 ^ 8 % 256) (outb 0x3D4 0x0E (outb 0x3D5 (pos % 256) (outb 0x3D4 0x0F v)))

unfoldable pub set_color : ℕ → Vga → Vga
set_color color v = record v { color = color }

unfoldable pub set_cursor : ℕ → ℕ → Vga → Vga
set_cursor row col v = record v {
  row = if ltb row vga_height then row else v.row;
  column = if ltb col vga_width then col else v.column;
}

-- `for (x = 0; x < VGA_WIDTH; x++)` of `vga_scroll`, with `n` rounds left.
scroll_line : ℕ → ℕ → ℕ → Memory → Memory
scroll_line zero y x m = m
scroll_line (suc n) y x m =
    scroll_line n y (x + 1) (write m ((y - 1) * vga_width + x) (m (y * vga_width + x)))

-- `for (y = 1; y < VGA_HEIGHT; y++)`, with `n` rounds left.
scroll_lines : ℕ → ℕ → Memory → Memory
scroll_lines zero y m = m
scroll_lines (suc n) y m = scroll_lines n (y + 1) (scroll_line vga_width y 0 m)

-- `n` cells from `i` on are set to `e`: the inner loops that clear.
fill : ℕ → ℕ → ℕ → Memory → Memory
fill zero i e m = m
fill (suc n) i e m = fill n (i + 1) e (write m i e)

pub scroll : Vga → Vga
scroll v =
    if leb vga_height v.row
    then record v {
      cells =
          fill vga_width ((vga_height - 1) * vga_width) (vga_entry b' ' v.color)
            (scroll_lines (vga_height - 1) 1 v.cells);
      row = vga_height - 1;
    }
    else v

-- `for (y = 0; y < VGA_HEIGHT; y++)` of `vga_clear`.
clear_lines : ℕ → ℕ → ℕ → Memory → Memory
clear_lines zero y e m = m
clear_lines (suc n) y e m = clear_lines n (y + 1) e (fill vga_width (y * vga_width) e m)

pub clear : Vga → Vga
clear v = record v {
  cells = clear_lines vga_height 0 (vga_entry b' ' v.color) v.cells;
  row = 0;
  column = 0;
}

abbrev pub index : Vga → ℕ
index v = v.row * vga_width + v.column

newline : Vga → Vga
newline v = scroll (record v { column = 0; row = v.row + 1 })

-- The cursor moves left, or to the end of the row above.
step_back : Vga → Vga
step_back v =
    if ltb 0 v.column
    then record v { column = v.column - 1 }
    else if ltb 0 v.row
    then record v { row = v.row - 1; column = vga_width - 1 }
    else v

backspace : Vga → Vga
backspace v =
    let w = step_back v in
    update_cursor (record w { cells = write w.cells (index w) (vga_entry b' ' w.color) })

-- The cursor moves right, or to the start of the row below.
advance : Vga → Vga
advance v =
    if leb vga_width (v.column + 1)
    then record v { column = 0; row = v.row + 1 }
    else record v { column = v.column + 1 }

-- Any other character.
put_plain : ℕ → Vga → Vga
put_plain c v =
    update_cursor
      (scroll (advance (record v { cells = write v.cells (index v) (vga_entry c v.color) })))

pub putchar : ℕ → Vga → Vga
putchar c v = if c == 10 then newline v else if c == 8 then backspace v else put_plain c v

unfoldable pub print : CString → Vga → Vga
print [] v = v
print (c ∷ s) v = print s (putchar c v)

-- `buffer` is a stack, so the second loop, which starts at its end, prints the list in order.
dec_buffer : ℕ → ℕ → List ℕ → List ℕ
dec_buffer zero num buffer = buffer
dec_buffer (suc k) num buffer =
    let rest = dec_buffer k (num / 10) ((b'0' + num % 10) ∷ buffer) in
    if ltb 0 num then rest else buffer

print_each : List ℕ → Vga → Vga
print_each [] v = v
print_each (c ∷ buffer) v = print_each buffer (print (c ∷ []) v)

unfoldable pub print_dec : ℕ → Vga → Vga
unfolding dec_buffer print_each
print_dec num v =
    if num == 0 then print (b'0' ∷ []) v else print_each (dec_buffer (num + 1) num []) v

-- `hex_chars[nibble]`
hex_char : ℕ → ℕ
hex_char nibble = if ltb nibble 10 then b'0' + nibble else b'A' + (nibble - 10)

-- The loop of `vga_print_hex`, with `n` nibbles left.
hex_nibbles : ℕ → ℕ → CString
hex_nibbles zero value = []
hex_nibbles (suc n) value = hex_char (value / 2 ^ (n * 4) % 16) ∷ hex_nibbles n value

pub hex_buffer : ℕ → CString
unfolding hex_nibbles hex_char
hex_buffer value = b'0' ∷ b'x' ∷ hex_nibbles 8 value

unfoldable pub print_hex : ℕ → Vga → Vga
unfolding hex_buffer
print_hex value v = print (hex_buffer value) v

unfoldable pub get_column : Vga → ℕ
get_column v = v.column

unfoldable pub print_color : CString → ℕ → Vga → Vga
print_color s color v = record (print s (record v { color = color })) {
  color = default_terminal_color;
}
