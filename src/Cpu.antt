-- ===== src/Cpu.antt =====
-- The tables of the processor and the interrupts: kernel/src/cpu/gdt.c, idt.c, irq.c and pic.c with
-- their headers, and kernel/src/drivers/timer.c.
pub mod Gdt
pub mod Idt
pub mod Pic
pub mod Irq
mod Examples
