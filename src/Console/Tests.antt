-- ===== src/Console/Tests.antt =====
-- A line typed into the buffer of src/kernel/core/console.c.
use sometuffcoolpr.Prelude.{[], arith}
use sometuffcoolpr.Console.{Console, init, handle_char}
use sometuffcoolpr.Console.Line.{IsLine, edit, handle_char-edit, clear-IsLine}

abbrev garbage : Console
garbage = record {
  line_buffer = λ a. 90;
  line_length = 7;
  screen = record { row = 0; column = 0; color = 7; cells = λ a. 0; ports = [] };
}

empty-IsLine : IsLine (init garbage) []
empty-IsLine = (clear-IsLine garbage).0

typed-IsLine : IsLine (handle_char 65 (init garbage)) (edit 65 [])
typed-IsLine =
    handle_char-edit 65 (init garbage) [] (λ e. absurd (omega arith)) (λ e. absurd (omega arith))
      empty-IsLine

handle_char-edit_example :
    IsLine (handle_char 8 (handle_char 65 (init garbage))) (edit 8 (edit 65 []))
handle_char-edit_example =
    handle_char-edit 8 (handle_char 65 (init garbage)) (edit 65 []) (λ e. absurd (omega arith))
      (λ e. absurd (omega arith)) typed-IsLine
