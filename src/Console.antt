-- ===== src/Console.antt =====
-- src/kernel/core/console.c: the input line. The screen that its characters are echoed on is the
-- state of `Vga`.
pub mod Line
mod Tests
use sometuffcoolpr.Prelude.{ℕ, zero, suc, ◌+◌, ◌-◌, ltb, ◌==◌, if◌then◌else◌}
use sometuffcoolpr.Prelude.Memory.{Memory, write}
use sometuffcoolpr.Vga.{Vga, putchar}

abbrev pub console_buffer_size : ℕ
console_buffer_size = 256

-- `line_buffer` is indexed from 0.
pub record Console : Type 0 where
  pub line_buffer : Memory
  pub line_length : ℕ
  pub screen : Vga

-- The loop over the buffer, with `n` bytes left.
pub zero_from : ℕ → ℕ → Memory → Memory
zero_from zero i m = m
zero_from (suc n) i m = zero_from n (i + 1) (write m i 0)

unfoldable pub init : Console → Console
init k = record k { line_length = 0; line_buffer = zero_from console_buffer_size 0 k.line_buffer }

pub handle_char : ℕ → Console → Console
handle_char c k =
    if c == 8
    then if ltb 0 k.line_length
      then record k {
        line_length = k.line_length - 1;
        line_buffer = write k.line_buffer (k.line_length - 1) 0;
        screen = putchar 8 k.screen;
      }
      else k
    else if c == 10
    then record k { screen = putchar 10 k.screen; line_length = 0 }
    else if ltb k.line_length (console_buffer_size - 1)
    then record k {
      line_buffer = write k.line_buffer k.line_length c;
      line_length = k.line_length + 1;
      screen = putchar c k.screen;
    }
    else k

unfoldable pub get_line : Console → Memory
get_line k = k.line_buffer

unfoldable pub clear_line : Console → Console
clear_line k = record k {
  line_buffer = zero_from console_buffer_size 0 k.line_buffer;
  line_length = 0;
}
