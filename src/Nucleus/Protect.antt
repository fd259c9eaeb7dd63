-- ===== src/Nucleus/Protect.antt =====
-- A nucleus system call in user mode, in the nucleus of phase 2.
use os_fall_2021_project.Prelude.{◌≡◌, refl, true, false, ◌||◌, ◌==◌, leb, update}
use os_fall_2021_project.Machine.Word.{null, is_negative}
use os_fall_2021_project.Machine.Types.{a0}
use os_fall_2021_project.Machine.Outcome.{load_context, Stops, stops}
use os_fall_2021_project.Pcb
use os_fall_2021_project.Pcb.{is_pcb}
use os_fall_2021_project.Nucleus.{Kernel, except_state, has_bits, kup_on}
use os_fall_2021_project.Nucleus.Scheduler.{state_copy}
use os_fall_2021_project.Nucleus.Exceptions.{pass_up_or_die, syscall_handler}
use os_fall_2021_project.Nucleus.Initial.{gen_exception_handler, exc_code}
use os_fall_2021_project.Nucleus.Phases.{gen_exception_phase2}

-- In phase 2 a SYSCALL in user mode with a code up to 8, negative ones included, by a process that has a
-- support structure, whose address is not 0, executes no system call: the state is copied to the structure as that of a general
-- exception, whose context is loaded, and nothing else changes.
pub gen_exception_phase2-passes_up :
    (s : Kernel)
    → exc_code (except_state s) ≡ 8
    → has_bits (except_state s).s_status kup_on ≡ true
    → (is_negative ((except_state s).s_reg a0) || leb ((except_state s).s_reg a0) 8) ≡ true
    → is_pcb s.current_proc ≡ true
    → (s.asl.procs.p_support_struct s.current_proc == null) ≡ false
    → (s.asl.procs.p_support_struct s.current_proc == 0) ≡ false
    → Stops
        (λ e s'.
          let sup = s.asl.procs.p_support_struct s.current_proc in
          let context = (s.supports sup).sup_except_context 1 in
          (e ≡ load_context context.c_stack_ptr context.c_status context.c_pc)
          × (s' ≡ record s {
            supports = update s.supports sup (record (s.supports sup) {
              sup_except_state =
                  update
                    (s.supports sup).sup_except_state
                    1
                    (state_copy (except_state s) ((s.supports sup).sup_except_state 1));
            });
          }))
        (gen_exception_phase2 s)
unfolding gen_exception_phase2 gen_exception_handler syscall_handler pass_up_or_die Pcb.load
gen_exception_phase2-passes_up s code user low hc some_sup above =
    simp (code, user, low, hc, some_sup, above) (stops (refl, refl))
