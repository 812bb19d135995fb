-- ===== src/Keyboard.antt =====
-- src/kernel/drivers/keyboard.c and the end-of-interrupt of drivers/pic.c. The byte that `inb` reads
-- from the data port is an argument; what is sent to the ports is returned, in order.
pub mod Queue
mod Tests
use sometuffcoolpr.Prelude.{
  ℕ, ◌+◌, ◌/◌, ◌%◌, ◌^◌, Bool, not, List, [], ◌∷◌, ◌++◌, ltb, leb, ◌==◌, if◌then◌else◌, get_or,
}
use sometuffcoolpr.Prelude.Memory.{Memory, write}

abbrev pub keyboard_buffer_size : ℕ
keyboard_buffer_size = 256

-- The buffer is indexed from 0.
pub record Keyboard : Type 0 where
  pub buffer : Memory
  pub head : ℕ
  pub tail : ℕ

-- The 128 entries are filled up with 0.
abbrev pub keymap : List ℕ
keymap =
    0 ∷ 27 ∷ b'1' ∷ b'2' ∷ b'3' ∷ b'4' ∷ b'5' ∷ b'6' ∷ b'7' ∷ b'8' ∷ b'9' ∷ b'0' ∷ b'-' ∷ b'=' ∷ 8
    ∷ 9 ∷ b'q' ∷ b'w' ∷ b'e' ∷ b'r' ∷ b't' ∷ b'y' ∷ b'u' ∷ b'i' ∷ b'o' ∷ b'p' ∷ b'[' ∷ b']' ∷ 10 ∷ 0
    ∷ b'a' ∷ b's' ∷ b'd' ∷ b'f' ∷ b'g' ∷ b'h' ∷ b'j' ∷ b'k' ∷ b'l' ∷ b';' ∷ 39 ∷ b'`' ∷ 0 ∷ 92
    ∷ b'z' ∷ b'x' ∷ b'c' ∷ b'v' ∷ b'b' ∷ b'n' ∷ b'm' ∷ b',' ∷ b'.' ∷ b'/' ∷ 0 ∷ b'*' ∷ 0 ∷ b' ' ∷ []

pub scancode_to_ascii : ℕ → ℕ
scancode_to_ascii scancode = if ltb scancode 128 then get_or keymap scancode 0 else 0

unfoldable pub send_eoi : ℕ → List (ℕ × ℕ)
send_eoi irq = (if leb 8 irq then (0xA0, 0x20) ∷ [] else []) ++ ((0x20, 0x20) ∷ [])

-- `keyboard_buffer[buffer_head] = c` and the step of the head.
pub store : ℕ → Keyboard → Keyboard
store c k = record k {
  buffer = write k.buffer k.head c;
  head = (k.head + 1) % keyboard_buffer_size;
}

-- A released key has bit 7 set.
pub irq_handler : ℕ → Keyboard → Keyboard × List (ℕ × ℕ)
irq_handler scancode k =
    if scancode / 128 % 2 == 1
    then (k, send_eoi 1)
    else let c = scancode_to_ascii scancode in (if not (c == 0) then store c k else k, send_eoi 1)

unfoldable pub has_input : Keyboard → Bool
has_input k = not (k.head == k.tail)

-- The character, 0 if there is none.
unfoldable pub getchar : Keyboard → ℕ × Keyboard
unfolding has_input
getchar k =
    if not (has_input k)
    then (0, k)
    else (k.buffer k.tail, record k { tail = (k.tail + 1) % keyboard_buffer_size })
