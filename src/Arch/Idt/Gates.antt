-- ===== src/Arch/Idt/Gates.antt =====
-- Where the gates of the interrupt table lead.
use sometuffcoolpr.Prelude.{
  ℕ, zero, suc, ◌+◌, ◌-◌, ◌*◌, ◌/◌, ◌%◌, ◌^◌, ◌<◌, Option, none, some, ◌≡◌, refl, ◌∙◌, ap, ◌&&◌,
  ltb, leb, ◌==◌, if◌then◌else◌, arith, Bool-cases, inl, inr, ==_eq,
}
use sometuffcoolpr.Arch.Idt.{
  Gate, Idt, gate, empty_gate, idt_set_gate, clear_gates, set_gates, idt_init,
}

clear_gates_lem :
    (n i : ℕ) (idt : Idt) (j : ℕ)
    → clear_gates n i idt j ≡ (if leb i j && ltb j (i + n) then empty_gate else idt j)
unfolding clear_gates
clear_gates_lem zero i idt j = ground arith
clear_gates_lem (suc n) i idt j =
    ground (arith, clear_gates_lem n (i + 1) (λ k. if k == i then empty_gate else idt k) j)

set_gates_lem :
    (n i base : ℕ) (handlers : ℕ → ℕ) (idt : Idt) (j : ℕ)
    → set_gates n i base handlers idt j
      ≡ (if leb (base + i) j && ltb j (base + i + n) then gate (handlers (j - base)) else idt j)
unfolding set_gates idt_set_gate
set_gates_lem zero i base handlers idt j = ground arith
set_gates_lem (suc n) i base handlers idt j =
    set_gates_lem n (i + 1) base handlers (idt_set_gate (base + i) (handlers i) idt) j
    ∙ elim (Bool-cases (j == base + i)) [
      | inl e ↦
          let at : j ≡ base + i = ==_eq j (base + i) e in
          let line : j - base ≡ i = omega arith in rw line (ground (arith, e))
      | inr e ↦ ground (arith, e)
    ]

-- What the processor reads from a gate: nothing if its present bit is clear, and else the address
-- that it jumps to, the selector of the code segment, the low five bits of the type and the least
-- privilege that may call the gate.
abbrev pub Entry : Type 0
Entry = ℕ × ℕ × ℕ × ℕ

abbrev pub read_gate : Gate → Option Entry
read_gate g =
    if g.type_attr / 2 ^ 7 % 2 == 1
    then some (
      g.offset_low + g.offset_high * 2 ^ 16,
      g.selector,
      g.type_attr % 2 ^ 5,
      g.type_attr / 2 ^ 5 % 4,
    )
    else none

-- A 32-bit interrupt gate (type 14) of the segment with index 1 of the GDT, for the kernel.
abbrev pub interrupt_gate : (address : ℕ) → Option Entry
interrupt_gate address = some (address, 8, 14, 0)

read_back : (handler : ℕ) → handler < 2 ^ 32 → read_gate (gate handler) ≡ interrupt_gate handler
read_back handler short =
    let whole : handler % 2 ^ 16 + handler / 2 ^ 16 % 2 ^ 16 * 2 ^ 16 ≡ handler = omega arith in
    rw whole refl

-- With stubs at 32-bit addresses, the processor reads from the table that `idt_init` leaves: for the 32
-- exceptions and for the 16 interrupt lines, present 32-bit interrupt gates of the segment 0x08 for
-- privilege 0 that lead to their stubs, and for the other numbers below 256 no gate.
pub idt_init-gate :
    (isr irq : ℕ → ℕ) (idt : Idt) (n : ℕ)
    → n < 256
    → ((i : ℕ) → isr i < 2 ^ 32)
    → ((i : ℕ) → irq i < 2 ^ 32)
    → read_gate (idt_init isr irq idt n) ≡ (
        if ltb n 32
        then interrupt_gate (isr n)
        else if ltb n 48
        then interrupt_gate (irq (n - 32))
        else none)
unfolding idt_init
idt_init-gate isr irq idt n lt short short' =
    let cleared = clear_gates 256 0 idt in
    let set : idt_init isr irq idt n ≡ (
        if ltb n 32 then gate (isr n) else if ltb n 48 then gate (irq (n - 32)) else empty_gate) =
      set_gates_lem 16 0 32 irq (set_gates 32 0 0 isr cleared) n
      ∙ ground (arith, set_gates_lem 32 0 0 isr cleared n, clear_gates_lem 256 0 idt n) in
    ap read_gate set ∙ elim (Bool-cases (ltb n 32)) [
      | inl e ↦ rw e (read_back (isr n) (short n))
      | inr e ↦ rw e (elim (Bool-cases (ltb n 48)) [
        | inl line ↦ rw line (read_back (irq (n - 32)) (short' (n - 32)))
        | inr free ↦ rw free refl
      ])
    ]
