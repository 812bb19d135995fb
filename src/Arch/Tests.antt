-- ===== src/Arch/Tests.antt =====
-- Tables and interrupts of src/kernel/arch/x86, core/idt.c and the drivers of the interrupt chips.
use sometuffcoolpr.Prelude.{some, [], ◌∷◌, ℕ, ◌+◌, ◌*◌, ◌%◌, ◌≡◌, refl, arith}
use sometuffcoolpr.Pmm.{alloc_frame, first_free_frame, not_full, free_bit}
use sometuffcoolpr.Paging.{paging_init}
use sometuffcoolpr.Paging.Init.{paging_init-Tracks}
use sometuffcoolpr.Fs.{ok}
use sometuffcoolpr.Machine.{Machine}
use sometuffcoolpr.Machine.Sample.{idle, unmapped, low_used}
use sometuffcoolpr.Arch.Gdt.{Gdt, gdt_set_entry, gdt_set_entry-read}
use sometuffcoolpr.Arch.Idt.{empty_gate, idt_init, page_fault_handler, isr_handler}
use sometuffcoolpr.Arch.Idt.Gates.{read_gate, idt_init-gate}
use sometuffcoolpr.Arch.Idt.Acknowledge.{isr_handler-sent}
use sometuffcoolpr.Arch.Idt.Interrupts.{Owned, Maps, page_fault_handler-Maps}

abbrev stub : ℕ → ℕ
stub i = 0x100000 + i % 256 * 16

idt_init-gate_example :
    read_gate (idt_init stub stub (λ n. empty_gate) 33) ≡ some (0x100010, 8, 14, 0)
idt_init-gate_example =
    idt_init-gate stub stub (λ n. empty_gate) 33 (omega arith) (λ i. omega arith) (λ i. omega arith)

-- The paging of the boot, with the first table in frame 8.
abbrev running : Machine
running = record idle { paging = paging_init 0x8000 unmapped }

running-Owned : Owned running.paging low_used
unfolding paging_init
running-Owned = record {
  tracks = paging_init-Tracks 0x8000 unmapped (λ e. absurd (omega arith)) refl (omega arith);
  used = λ d h. ground arith;
  small = omega arith;
}

first_frame : (alloc_frame low_used).0 ≡ 33 * 4096
unfolding alloc_frame first_free_frame not_full free_bit
first_frame = refl

second_frame : (alloc_frame (alloc_frame low_used).1).0 ≡ 34 * 4096
unfolding alloc_frame first_free_frame not_full free_bit
second_frame = refl

page_fault_handler-Maps_example :
    (m' : Machine) × (page_fault_handler 0x400123 2 running ≡ ok m')
    × Maps 0x400123 (alloc_frame low_used).0 running m'
page_fault_handler-Maps_example =
    page_fault_handler-Maps 0x400123 2 running running-Owned refl
      (λ e. absurd (omega (arith, e, first_frame))) (λ e. absurd (omega (arith, e, second_frame)))
      (omega (arith, second_frame))

abbrev blank : Gdt
blank = λ i. record {
  limit_low = 0;
  base_low = 0;
  base_middle = 0;
  access = 0;
  granularity = 0;
  base_high = 0;
}

gdt_set_entry-read_example : (gdt_set_entry 1 0 0xFFFFFFFF 0x9A 0xCF blank 1).access ≡ 0x9A
gdt_set_entry-read_example =
    (gdt_set_entry-read 1 0 0xFFFFFFFF 0x9A 0xCF blank (omega arith) (omega arith)).2

isr_handler-sent_example :
    (m' : Machine) × (isr_handler 33 0 0 0x1E idle ≡ ok m')
    × (m'.sent ≡ (0x20, 0x20) ∷ (0x20, 0x20) ∷ [])
isr_handler-sent_example = isr_handler-sent 33 0 0 0x1E idle (omega arith) (omega arith)
