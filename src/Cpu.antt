-- ===== src/Cpu.antt =====
-- cpu/: the descriptor tables, the interrupt vectors, the timer and the exceptions.
pub mod Idt
pub mod Gdt
pub mod Timer
pub mod Exceptions
