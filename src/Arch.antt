-- ===== src/Arch.antt =====
-- The processor's tables and the controllers on the board: src/kernel/arch/x86, core/idt.c,
-- drivers/pic.c and drivers/pit.c.
pub mod Gdt
pub mod Idt
pub mod Ports
mod Tests
