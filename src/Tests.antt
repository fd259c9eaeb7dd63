-- ===== src/Tests.antt =====
-- Concrete states, runs of the code on them, and the theorems at inputs that meet their hypotheses.
pub mod Pcbs
pub mod Asls
pub mod Kernels
pub mod Phase1s
pub mod Semaphores
pub mod Calls
pub mod Trees
pub mod Supports
pub mod Pools
