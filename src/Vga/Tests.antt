-- ===== src/Vga/Tests.antt =====
-- A screen for src/kernel/video/vga.c.
use sometuffcoolpr.Prelude.{ℕ, ◌+◌, ◌≡◌, [], arith, ltb, if◌then◌else◌}
use sometuffcoolpr.Vga.{Vga, vga_entry, putchar, scroll}
use sometuffcoolpr.Vga.Cursor.{Safe, putchar-Safe}
use sometuffcoolpr.Vga.Scroll.{scroll_lem}

-- The cursor in the last column of the given row.
abbrev at_row : ℕ → Vga
at_row row = record { row = row; column = 79; color = 7; cells = λ a. a; ports = [] }

putchar-Safe_example : Safe (at_row 24) (putchar 65 (at_row 24))
putchar-Safe_example =
    putchar-Safe 65 (at_row 24) (record { row_in = omega arith; column_in = omega arith })

scroll_lem_example :
    ((scroll (at_row 25)).row ≡ 24)
    × ((a : ℕ)
        → (scroll (at_row 25)).cells a
          ≡ (if ltb a 1920 then a + 80 else if ltb a 2000 then vga_entry b' ' 7 else a))
scroll_lem_example = scroll_lem (at_row 25) (omega arith)
