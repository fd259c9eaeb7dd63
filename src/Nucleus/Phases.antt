-- ===== src/Nucleus/Phases.antt =====
-- The nucleus as phase 2 and phase 3 link it: they differ in the program trap handler.
use os_fall_2021_project.Prelude.{ℕ}
use os_fall_2021_project.Machine.Outcome.{system_call}
use os_fall_2021_project.Nucleus.{K, exit}
use os_fall_2021_project.Nucleus.Exceptions.{
  pass_up_or_die, pg_fault_except, general_except, syscall_handler,
}
use os_fall_2021_project.Nucleus.Initial.{gen_exception_handler}

-- `programTrapHandler` and `tlbExceptionHandler` of exceptions.c in phase 2.
unfoldable pub trap_phase2 : K (Unit {0})
trap_phase2 = pass_up_or_die general_except

unfoldable pub tlb_phase2 : K (Unit {0})
tlb_phase2 = pass_up_or_die pg_fault_except

-- Phase 3 has no such function in the nucleus: the name is that of sysSupport.c, which executes
-- SYSCALL with the address of `procSem`.
unfoldable pub trap_phase3 : (proc_sem : ℕ) → K (Unit {0})
trap_phase3 proc_sem = exit (system_call 4 proc_sem 0 0)

unfoldable pub syscall_phase2 : ℕ → K (Unit {0})
unfolding trap_phase2
syscall_phase2 code = syscall_handler trap_phase2 code

unfoldable pub gen_exception_phase2 : K (Unit {0})
unfolding trap_phase2
gen_exception_phase2 = gen_exception_handler trap_phase2

unfoldable pub gen_exception_phase3 : (proc_sem : ℕ) → K (Unit {0})
unfolding trap_phase3
gen_exception_phase3 proc_sem = gen_exception_handler (trap_phase3 proc_sem)
