-- ===== src/Keyboard/Tests.antt =====
-- Key presses for src/kernel/drivers/keyboard.c.
use sometuffcoolpr.Prelude.{◌≡◌, [], ◌∷◌, ◌++◌, arith}
use sometuffcoolpr.Keyboard.{Keyboard, irq_handler}
use sometuffcoolpr.Keyboard.Queue.{IsValid, contents, typed, irq_handler_lem}

-- Two characters wait, around the end of the buffer.
abbrev waiting : Keyboard
waiting = record { buffer = λ a. a; head = 1; tail = 255 }

waiting-IsValid : IsValid waiting
waiting-IsValid = record { head_in = omega arith; tail_in = omega arith }

irq_handler_lem_example :
    (contents (irq_handler 0x1E waiting).0 ≡ contents waiting ++ typed 0x1E)
    × IsValid (irq_handler 0x1E waiting).0
    × ((irq_handler 0x1E waiting).1 ≡ (0x20, 0x20) ∷ [])
irq_handler_lem_example = irq_handler_lem 0x1E waiting (omega arith) waiting-IsValid (omega arith)
