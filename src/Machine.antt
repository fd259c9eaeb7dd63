-- ===== src/Machine.antt =====
-- The machine that the kernel runs on: 32-bit words, the structures of h/types.h, and the outcome
-- of a piece of kernel code. A module each.
pub mod Word
pub mod Types
pub mod Outcome
