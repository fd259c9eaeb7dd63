-- ===== src/Tests/Kernels.antt =====
-- The theorems about the scheduler and the interrupts at concrete states of the nucleus.
use os_fall_2021_project.Prelude.{◌⊎◌, ◌<◌, ◌≡◌, refl, update, [], ◌∷◌, arith}
use os_fall_2021_project.Machine.Types.{State}
use os_fall_2021_project.Machine.Outcome.{
  Stops, load_state, load_context, halted, waiting, panicked,
}
use os_fall_2021_project.Pcb.Ring.{IsQueue}
use os_fall_2021_project.Nucleus.{Kernel, except_state}
use os_fall_2021_project.Nucleus.Scheduler.{scheduler, state_copy}
use os_fall_2021_project.Nucleus.Dispatch.{scheduler-first, scheduler-idle}
use os_fall_2021_project.Machine.Word.{null}
use os_fall_2021_project.Nucleus.Initial.{main, exc_code}
use os_fall_2021_project.Nucleus.Boot.{Booted, main-starts}
use os_fall_2021_project.Nucleus.Phases.{gen_exception_phase2}
use os_fall_2021_project.Nucleus.Protect.{gen_exception_phase2-passes_up}
use os_fall_2021_project.Nucleus.Interrupts.{dev_no_of}
use os_fall_2021_project.Nucleus.Devices.{lowest_dev, swap_1_2, dev_no_of-lowest}
use os_fall_2021_project.Tests.Pcbs.{blank_state, three, three-IsQueue}
use os_fall_2021_project.Tests.Asls.{blank_semds}

-- The pcbs 1, 2 and 3 are ready.
abbrev pub three_ready : Kernel
three_ready = record {
  asl = record { semds = blank_semds; procs = three };
  process_count = 3;
  soft_block_count = 0;
  ready_q = 3;
  current_proc = 0;
  start_tod = 0;
  mem = λ _. 0;
  states = λ _. blank_state;
  supports = λ _. record {
    sup_asid = 0;
    sup_except_state = λ _. blank_state;
    sup_except_context = λ _. record { c_stack_ptr = 0; c_status = 0; c_pc = 0 };
    sup_private_pg_tbl = λ _. record { entry_hi = 0; entry_lo = 0 };
  };
  hw = record {
    todlo = λ i. i;
    tod_reads = 0;
    timescale = 1;
    local_timer = 0;
    interval_timer = 0;
    status = 0;
    rambase = 0x2000_0000;
    ramsize = 0x0004_0000;
    interrupt_dev = λ _. 0;
    dev_reg = λ _. record { d_status = 0; d_command = 0; d_data0 = 0; d_data1 = 0 };
    pass_up_vector = record {
      tlb_refll_handler = 0;
      tlb_refll_stack_ptr = 0;
      exception_handler = 0;
      exception_stack_ptr = 0;
    };
    entry_hi = 0;
    entry_lo = 0;
    tlb = [];
  };
  link = record {
    test = 0;
    u_tlb_refill_handler = 0;
    gen_exception_handler = 0;
    device_sema4s = 0;
  };
}

scheduler-first_example :
    Stops
      (λ e s'.
        (e ≡ load_state blank_state)
        × (s'.current_proc ≡ 1)
        × IsQueue s'.asl.procs s'.ready_q (2 ∷ 3 ∷ [])
        × (s'.hw.local_timer ≡ 5000)
        × (s'.process_count ≡ 3)
        × (s'.soft_block_count ≡ 0)
        × (s'.asl.semds ≡ blank_semds)
        × (s'.mem ≡ λ _. 0))
      (scheduler three_ready)
scheduler-first_example = scheduler-first three_ready 1 (2 ∷ 3 ∷ []) three-IsQueue refl

abbrev numbered_state : State
numbered_state = record blank_state { s_reg = λ i. i }

dev_no_of-lowest_example : dev_no_of 6 ≡ swap_1_2 (lowest_dev 8 0 6)
dev_no_of-lowest_example = dev_no_of-lowest 6

-- A process, and none that is ready or soft-blocked.
abbrev deadlocked : Kernel
deadlocked = record three_ready { ready_q = null; process_count = 1 }

scheduler-idle_example :
    Stops
      (λ e s'.
        ((e ≡ halted) × (deadlocked.process_count ≡ 0) × (s' ≡ deadlocked))
        ⊎ (((e ≡ waiting)
              × (0 < deadlocked.soft_block_count)
              × (s' ≡ record deadlocked { hw = record deadlocked.hw { status = 0xff01 } }))
            ⊎ ((e ≡ panicked)
                × (0 < deadlocked.process_count)
                × (deadlocked.soft_block_count ≡ 0)
                × (s' ≡ deadlocked))))
      (scheduler deadlocked)
scheduler-idle_example =
    scheduler-idle deadlocked (record { tail = refl; links = tt; distinct = tt; valid = tt })
      (omega arith) (omega arith)

main-starts_example :
    Stops
      (λ e s'.
        Booted three_ready numbered_state e s'
        × (s'.hw.pass_up_vector ≡ record {
          tlb_refll_handler = 0;
          tlb_refll_stack_ptr = 0x2000_1000;
          exception_handler = 0;
          exception_stack_ptr = 0x2000_1000;
        }))
      (main numbered_state three_ready)
main-starts_example = main-starts three_ready numbered_state refl refl

-- The pcb 1, with a support structure, runs in user mode and executes the system call 3.
abbrev user_call : Kernel
user_call = record three_ready {
  asl = record three_ready.asl { procs = record three { p_support_struct = λ _. 0x2000 } };
  current_proc = 1;
  states = λ _. record blank_state { s_cause = 32; s_status = 8; s_reg = λ i. 3 };
}

gen_exception_phase2-passes_up_example :
    Stops
      (λ e s'.
        (e ≡ load_context 0 0 0)
        × (s' ≡ record user_call {
          supports = update user_call.supports 0x2000 (record (user_call.supports 0x2000) {
            sup_except_state =
                update
                  (user_call.supports 0x2000).sup_except_state
                  1
                  (state_copy (except_state user_call) blank_state);
          });
        }))
      (gen_exception_phase2 user_call)
unfolding exc_code
gen_exception_phase2-passes_up_example =
    gen_exception_phase2-passes_up user_call refl refl refl refl refl refl
