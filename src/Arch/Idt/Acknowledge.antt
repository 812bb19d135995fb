-- ===== src/Arch/Idt/Acknowledge.antt =====
-- How the interrupts are acknowledged.
use sometuffcoolpr.Prelude.{
  ℕ, ◌-◌, ◌≤◌, ◌<◌, ◌≡◌, refl, ◌∙◌, ap, true, false, ◌&&◌, List, [], ◌∷◌, ◌++◌, arith, leb, ltb,
  ◌==◌, if◌then◌else◌, Bool-cases, inl, inr,
}
use mathlib.Core.List.{append_assoc}
use sometuffcoolpr.Keyboard.{send_eoi}
use sometuffcoolpr.Keyboard.Queue.{irq_handler-sent}
use sometuffcoolpr.Fs.{ok}
use sometuffcoolpr.Machine.{Machine}
use sometuffcoolpr.Arch.Idt.{irq, isr_handler}

send_eoi_lem :
    (int_no : ℕ)
    → 32 ≤ int_no
    → send_eoi (int_no - 32)
      ≡ (if leb 40 int_no then (0xA0, 0x20) ∷ (0x20, 0x20) ∷ [] else (0x20, 0x20) ∷ [])
unfolding send_eoi
send_eoi_lem int_no low = elim (Bool-cases (leb 40 int_no)) [
  | inl slave ↦
      let line : leb 8 (int_no - 32) ≡ true = ground (arith, slave) in rw (slave, line) refl
  | inr master ↦
      let line : leb 8 (int_no - 32) ≡ false = ground (arith, master, low) in rw (master, line) refl
]

-- An interrupt of the sixteen lines returns and is acknowledged at the master, those from line 8
-- on at the slave too; that of the keyboard is acknowledged twice.
pub isr_handler-sent :
    (int_no err_code cr2 scancode : ℕ) (m : Machine)
    → 32 ≤ int_no
    → int_no < 48
    → (m' : Machine) × (isr_handler int_no err_code cr2 scancode m ≡ ok m')
      × (m'.sent
          ≡ m.sent
            ++ (if int_no == 33
                then (0x20, 0x20) ∷ (0x20, 0x20) ∷ []
                else (if leb 40 int_no
                    then (0xA0, 0x20) ∷ (0x20, 0x20) ∷ []
                    else (0x20, 0x20) ∷ [])))
unfolding isr_handler irq
isr_handler-sent int_no err_code cr2 scancode m low high =
    let is_exception : ltb int_no 32 ≡ false = ground (arith, low) in
    let is_line : (leb 32 int_no && leb int_no 47) ≡ true = ground (arith, low, high) in
    let eoi = send_eoi_lem int_no low in
    (
      irq int_no scancode m,
      rw (is_exception, is_line) refl,
      elim (Bool-cases (int_no == 32)) [
        | inl clock ↦
            let no_key : (int_no == 33) ≡ false = ground (arith, clock) in
            rw (clock, no_key) (ap (λ (s : List (ℕ × ℕ)). m.sent ++ s) eoi)
        | inr other ↦ rw other (elim (Bool-cases (int_no == 33)) [
          | inl is_key ↦
              let master : leb 40 int_no ≡ false = ground (arith, is_key) in
              rw (is_key, irq_handler-sent scancode m.keyboard)
                (ap (λ (s : List (ℕ × ℕ)). (m.sent ++ ((0x20, 0x20) ∷ [])) ++ s)
                    (eoi ∙ rw master refl)
                  ∙ append_assoc m.sent ((0x20, 0x20) ∷ []) ((0x20, 0x20) ∷ []))
          | inr no_key ↦ rw no_key (ap (λ (s : List (ℕ × ℕ)). m.sent ++ s) eoi)
        ])
      ],
    )
