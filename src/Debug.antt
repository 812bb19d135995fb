-- ===== src/Debug.antt =====
-- The reports of src/kernel/core/debug.c. The loop that halts the CPU at their end is the `panic` of
-- the caller.
use sometuffcoolpr.Prelude.{ℕ, ◌/◌, ◌%◌, ◌^◌, List, [], ◌∷◌, ◌++◌, ◌==◌, if◌then◌else◌}
use sometuffcoolpr.Prelude.Text.{codes}
use sometuffcoolpr.Str.{CString}
use sometuffcoolpr.Vga.Output.{Item, text, dec, hex, color, wipe}
use sometuffcoolpr.Machine.{Cpu}

-- The `registers_t` that the interrupt stubs push, as far as it is read.
pub record Registers : Type 0 where
  pub int_no : ℕ
  pub err_code : ℕ
  pub eip : ℕ
  pub cs : ℕ
  pub eflags : ℕ
  pub eax : ℕ
  pub ebx : ℕ
  pub ecx : ℕ
  pub edx : ℕ

unfoldable pub debug_print_segments : Cpu → List Item
debug_print_segments r =
    text (codes "==== CPU STATE ====\n")
    ∷ text (codes "CS: ")
    ∷ hex r.cs
    ∷ text (codes " DS: ")
    ∷ hex r.ds
    ∷ text (codes " ES: ")
    ∷ hex r.es
    ∷ text (codes " FS: ")
    ∷ hex r.fs
    ∷ text (codes " GS: ")
    ∷ hex r.gs
    ∷ text (codes " SS: ")
    ∷ hex r.ss
    ∷ text (codes " TR: ")
    ∷ hex r.tr
    ∷ text (codes "\n")
    ∷ text (codes "EIP: ")
    ∷ hex r.eip
    ∷ text (codes " ESP: ")
    ∷ hex r.esp
    ∷ text (codes " EFLAGS: ")
    ∷ hex r.eflags
    ∷ text (codes " CPL: ")
    ∷ dec (r.cs % 4)
    ∷ text (codes "\n")
    ∷ text (codes "CR0: ")
    ∷ hex r.cr0
    ∷ text (codes " CR2: ")
    ∷ hex r.cr2
    ∷ text (codes " CR3: ")
    ∷ hex r.cr3
    ∷ text (codes " CR4: ")
    ∷ hex r.cr4
    ∷ text (codes "\n")
    ∷ text (codes "GDTR: ")
    ∷ hex r.gdtr_base
    ∷ text (codes "/")
    ∷ hex r.gdtr_limit
    ∷ text (codes " IDTR: ")
    ∷ hex r.idtr_base
    ∷ text (codes "/")
    ∷ hex r.idtr_limit
    ∷ text (codes "\n")
    ∷ text (codes "PM:")
    ∷ text (if r.cr0 % 2 == 1 then codes "1 " else codes "0 ")
    ∷ text (codes "PG:")
    ∷ text (if r.cr0 / 2 ^ 31 % 2 == 1 then codes "1" else codes "0")
    ∷ text (codes "\n====================\n")
    ∷ []

abbrev rule : CString
rule = codes "================================================================================\n"

unfoldable pub debug_panic : Cpu → CString → List Item
unfolding debug_print_segments
debug_panic r message =
    (color 0x4F
      ∷ wipe
      ∷ text rule
      ∷ color 0xCF
      ∷ text (
          codes
            "                                 KERNEL PANIC                                   \n")
      ∷ color 0x4F
      ∷ text (rule ++ codes "\n")
      ∷ text (codes "Reason: ")
      ∷ text message
      ∷ text (codes "\n\n")
      ∷ text (codes "CPU Registers at panic call:\n")
      ∷ [])
    ++ (debug_print_segments r ++ (text (codes "\n") ∷ text (codes "System Halted.\n") ∷ []))

unfoldable pub debug_panic_from_exception : Registers → CString → List Item
debug_panic_from_exception r message =
    color 0x4F
    ∷ wipe
    ∷ text rule
    ∷ color 0xCF
    ∷ text
        (codes "                             UNHANDLED EXCEPTION                                \n")
    ∷ color 0x4F
    ∷ text (rule ++ codes "\n")
    ∷ text (codes "Exception: ")
    ∷ text message
    ∷ text (codes " (Int No: ")
    ∷ hex r.int_no
    ∷ text (codes " Err Code: ")
    ∷ hex r.err_code
    ∷ text (codes ")\n\n")
    ∷ text (codes "EIP: ")
    ∷ hex r.eip
    ∷ text (codes " CS: ")
    ∷ hex r.cs
    ∷ text (codes " EFLAGS: ")
    ∷ hex r.eflags
    ∷ text (codes "\n")
    ∷ text (codes "EAX: ")
    ∷ hex r.eax
    ∷ text (codes " EBX: ")
    ∷ hex r.ebx
    ∷ text (codes " ECX: ")
    ∷ hex r.ecx
    ∷ text (codes " EDX: ")
    ∷ hex r.edx
    ∷ text (codes "\n")
    ∷ text (codes "\nSystem Halted.\n")
    ∷ []
