-- ===== src/Phase1.antt =====
-- Phase 1: the queues, the process tree and the semaphore list of phase1/pcb.c and phase1/asl.c. The
-- queues have their links the other way round than those of phase 3.
pub mod Pcb
pub mod Free
pub mod Tree
pub mod Asl
pub mod Turn
pub mod Blocked
pub mod Remove
pub mod Out
