-- ===== src/Arch/Idt.antt =====
-- src/kernel/core/idt.c: the table of gates, and what an interrupt does to the kernel. A page fault
-- or exception that is not handled ends in the `panic` of the handler.
pub mod Gates
pub mod Interrupts
pub mod Acknowledge
use sometuffcoolpr.Prelude.{
  ℕ, zero, suc, ◌+◌, ◌-◌, ◌*◌, ◌/◌, ◌%◌, ◌^◌, Bool, not, ◌&&◌, Option, none, some, List, [], ◌∷◌,
  ◌++◌, ltb, leb, ◌==◌, if◌then◌else◌,
}
use sometuffcoolpr.Prelude.Text.{codes}
use sometuffcoolpr.Vga.Output.{Item, text, hex}
use sometuffcoolpr.Heap.{kernel_heap_start, kernel_heap_end}
use sometuffcoolpr.Time.{tick}
use sometuffcoolpr.Keyboard.{irq_handler, send_eoi}
use sometuffcoolpr.Pmm.{Pmm, alloc_frame}
use sometuffcoolpr.Paging.{Paging, map_page}
use sometuffcoolpr.Fs.{Result, ok, fault, panic}
use sometuffcoolpr.Machine.{Machine}

-- `struct idt_entry`
pub record Gate : Type 0 where
  pub offset_low : ℕ
  pub selector : ℕ
  pub reserved : ℕ
  pub type_attr : ℕ
  pub offset_high : ℕ

abbrev pub Idt : Type 0
Idt = ℕ → Gate

abbrev pub gate : ℕ → Gate
gate handler = record {
  offset_low = handler % 2 ^ 16;
  selector = 0x08;
  reserved = 0;
  type_attr = 0x8E;
  offset_high = handler / 2 ^ 16 % 2 ^ 16;
}

unfoldable pub idt_set_gate : (n handler : ℕ) → Idt → Idt
idt_set_gate n handler idt i = if i == n then gate handler else idt i

abbrev pub empty_gate : Gate
empty_gate = record { offset_low = 0; selector = 0; reserved = 0; type_attr = 0; offset_high = 0 }

-- The `n` turns of the loop that clears, from `i`.
unfoldable pub clear_gates : (n i : ℕ) → Idt → Idt
clear_gates zero i idt = idt
clear_gates (suc n) i idt = clear_gates n (i + 1) (λ j. if j == i then empty_gate else idt j)

-- The `n` turns of a loop that sets the gate `base + i` to the handler `i`.
unfoldable pub set_gates : (n i base : ℕ) → (ℕ → ℕ) → Idt → Idt
unfolding idt_set_gate
set_gates zero i base handlers idt = idt
set_gates (suc n) i base handlers idt =
    set_gates n (i + 1) base handlers (idt_set_gate (base + i) (handlers i) idt)

-- `isr` and `irq` are the addresses of the assembly stubs.
unfoldable pub idt_init : (isr irq : ℕ → ℕ) → Idt → Idt
idt_init isr irq idt = set_gates 16 0 32 irq (set_gates 32 0 0 isr (clear_gates 256 0 idt))

-- `fault_addr & 0xFFFFF000`
abbrev pub page_of : ℕ → ℕ
page_of fault_addr = fault_addr / 4096 * 4096

-- The frame that `map_page` takes if the page has no table.
abbrev pub table_frame : ℕ → Paging → Pmm → ℕ × Pmm
table_frame page paging pmm =
    if paging.page_tables (page / 2 ^ 22) == 0 then alloc_frame pmm else (0, pmm)

-- Demand paging of the page, with a frame that was taken.
unfoldable pub map_frame : (page frame : ℕ) → Machine → Result Machine
map_frame page frame m =
    let t = table_frame page m.paging m.pmm in
    elim (map_page t.0 page frame m.paging) [
      | none ↦ fault
      | some p ↦ ok (record m { paging = p; pmm = t.1 })
    ]

-- Is the fault the kernel's, on a page of its heap that is not present?
abbrev pub is_heap_fault : (fault_addr err_code : ℕ) → Bool
is_heap_fault fault_addr err_code =
    ((err_code % 2 == 0) && not (err_code / 4 % 2 == 1))
    && (leb kernel_heap_start (page_of fault_addr) && ltb (page_of fault_addr) kernel_heap_end)

unfoldable pub page_fault_handler : (fault_addr err_code : ℕ) → Machine → Result Machine
page_fault_handler fault_addr err_code m =
    let a = alloc_frame m.pmm in
    if is_heap_fault fault_addr err_code
    then if a.0 == 0 then panic else map_frame (page_of fault_addr) a.0 (record m { pmm = a.1 })
    else panic

-- The message of a fatal page fault, printed before the panic.
unfoldable pub page_fault_report : (fault_addr err_code : ℕ) → List Item
page_fault_report fault_addr err_code =
    (text (codes "\n=== FATAL PAGE FAULT ===\n")
      ∷ text (codes "Fault Address: ")
      ∷ hex fault_addr
      ∷ text (codes "\n")
      ∷ text (codes "Flags:")
      ∷ text (if err_code % 2 == 0 then codes " [Not Present]" else codes " [Protection Violation]")
      ∷ text (if err_code / 2 % 2 == 1 then codes " [Write]" else codes " [Read]")
      ∷ text (if err_code / 4 % 2 == 1 then codes " [User Mode]" else codes " [Kernel Mode]")
      ∷ [])
    ++ ((if err_code / 8 % 2 == 1 then text (codes " [Reserved Bit]") ∷ [] else [])
        ++ ((if err_code / 16 % 2 == 1 then text (codes " [Instruction Fetch]") ∷ [] else [])
            ++ (text (codes "\n") ∷ [])))

-- The hardware interrupts: the handler of the line, then the end-of-interrupt.
unfoldable pub irq : (int_no scancode : ℕ) → Machine → Machine
unfolding tick send_eoi
irq int_no scancode m =
    let served : Machine =
      (if int_no == 32
        then record m { timer = tick m.timer }
        else if int_no == 33
        then (let (k, eoi) = irq_handler scancode m.keyboard in
            record m { keyboard = k; sent = m.sent ++ eoi })
        else m) in
    record served { sent = served.sent ++ send_eoi (int_no - 32) }

-- `cr2` is the register of the fault's address, `scancode` what the keyboard's port holds.
unfoldable pub isr_handler : (int_no err_code cr2 scancode : ℕ) → Machine → Result Machine
isr_handler int_no err_code cr2 scancode m =
    if ltb int_no 32
    then if int_no == 14 then page_fault_handler cr2 err_code m else panic
    else if leb 32 int_no && leb int_no 47
    then ok (irq int_no scancode m)
    else ok m
