-- ===== src/Tests/Calls.antt =====
-- The theorems about the system calls that do not block at a concrete state.
use os_fall_2021_project.Prelude.{
  ◌∷◌, [], ℕ, ◌+◌, arith, ◌<◌, ◌-◌, ◌≡◌, refl, if◌then◌else◌, ◌==◌, update,
}
use os_fall_2021_project.Machine.Word.{null, add32, sub32, error_code}
use os_fall_2021_project.Machine.Types.{set_reg, v0}
use os_fall_2021_project.Machine.Outcome.{Returns, Stops, load_state, pure}
use os_fall_2021_project.Nucleus.{Kernel, except_state, device_sem, sem_count}
use os_fall_2021_project.Nucleus.Interrupts.{acknowledge}
use os_fall_2021_project.Nucleus.DevSems.{IsDevice, dev_sem_index-bounds, acknowledge-dev_sem_index}
use os_fall_2021_project.Nucleus.Exceptions.{
  create_process, passeren, verhogen, dev_sem_index, syscall_handler,
}
use os_fall_2021_project.Nucleus.Calls.{
  GoesOn, passeren-passes, verhogen-counts, create_process-refused, syscall_handler-stale,
}
use os_fall_2021_project.Asl.Around.{entry}
use os_fall_2021_project.Nucleus.{time_slice}
use os_fall_2021_project.Nucleus.Scheduler.{state_copy}
use os_fall_2021_project.Nucleus.Invariant.{IsNucleus, IsNucleus-frame}
use os_fall_2021_project.Nucleus.Initial.{exc_code}
use os_fall_2021_project.Nucleus.Phases.{gen_exception_phase2}
use os_fall_2021_project.Nucleus.Waiting.{reading}
use os_fall_2021_project.Nucleus.Preempt.{plt_interrupt-rotates}
use os_fall_2021_project.Nucleus.Lines.{gen_exception_phase2-first_line}
use os_fall_2021_project.Tests.Pcbs.{blank_state}
use os_fall_2021_project.Tests.Semaphores.{busy, five, busy-IsNucleus}

-- Each semaphore has the value 1, and no pcb is free.
abbrev counted : Kernel
counted = record busy {
  asl = record busy.asl { procs = record five { pcb_list_h = null } };
  mem = λ _. 1;
}

create_process-refused_example :
    Stops
      (GoesOn counted (set_reg (except_state counted) v0 error_code) counted.mem)
      (create_process counted)
create_process-refused_example =
    create_process-refused counted refl
      (record { tail = refl; links = tt; distinct = tt; valid = tt }) refl

-- SYS3 and SYS4 on the semaphore at 4096.
abbrev operating : Kernel
operating = record counted { states = λ _. record blank_state { s_reg = λ _. 4096 } }

passeren-passes_example :
    Stops
      (GoesOn operating (except_state operating) (update operating.mem 4096 (sub32 1 1)))
      (passeren operating)
unfolding sub32
passeren-passes_example = passeren-passes operating refl 4096 refl refl refl

verhogen-counts_example :
    Stops
      (GoesOn operating
        (set_reg (except_state operating) v0 4096)
        (update operating.mem 4096 (add32 1 1)))
      (verhogen operating)
unfolding add32
verhogen-counts_example = verhogen-counts operating refl 4096 refl refl refl

-- The device 0 of the line 3 has interrupted already.
abbrev early : Kernel
early = record counted { states = λ _. record blank_state { s_reg = λ i. if i == 4 then 3 else 0 } }

syscall_handler-stale_example :
    Stops
      (λ e s'.
        (e ≡ load_state blank_state)
        × (s' ≡ record early {
          mem = update early.mem 3904 (sub32 1 1);
          hw = record early.hw { tod_reads = early.hw.tod_reads + 1 };
        }))
      (syscall_handler (pure tt) 5 early)
unfolding dev_sem_index device_sem sub32
syscall_handler-stale_example = syscall_handler-stale early refl (pure tt) 3904 refl refl refl refl

-- The device 2 of the line 7 is a terminal.
terminal_2 : IsDevice 7 2 1
terminal_2 = record {
  first = omega arith;
  last = omega arith;
  below = omega arith;
  reads = λ h. refl;
}

dev_sem_index-bounds_example :
    (dev_sem_index 7 2 1 < sem_count - 1)
    × (◌≡◌ {A = ℕ} 7 7)
    × (◌≡◌ {A = ℕ} 2 2)
    × ((1 == 1) ≡ (1 == 1))
dev_sem_index-bounds_example = dev_sem_index-bounds 7 2 1 7 2 1 terminal_2 terminal_2 refl

acknowledge-dev_sem_index_example :
    Returns
      (λ r s'.
        (r.1 ≡ dev_sem_index 7 2 0)
        × (s' ≡ record counted {
          hw = record counted.hw {
            dev_reg = update counted.hw.dev_reg 34 (record (counted.hw.dev_reg 34) { d_data1 = 1 });
          };
        }))
      (acknowledge 7 34 counted)
acknowledge-dev_sem_index_example =
    acknowledge-dev_sem_index 7 2 counted (omega arith) (omega arith) (omega arith)

-- Both timers interrupt.
abbrev ticking : Kernel
ticking = record busy { states = λ _. record blank_state { s_cause = 0x0600 } }

ticking-IsNucleus : IsNucleus ticking (1 ∷ 2 ∷ 3 ∷ []) (entry 1 4096 (5 ∷ 6 ∷ []) ∷ []) (2 ∷ [])
ticking-IsNucleus = IsNucleus-frame busy ticking busy-IsNucleus refl refl (λ b. (refl, refl, refl))

gen_exception_phase2-first_line_example :
    Stops
      (λ e s'.
        (e ≡ load_state (s'.asl.procs.p_s 1))
        × (s'.current_proc ≡ 1)
        × IsNucleus s' (2 ∷ 3 ∷ 9 ∷ []) (entry 1 4096 (5 ∷ 6 ∷ []) ∷ []) (2 ∷ [])
        × (s'.hw.local_timer ≡ time_slice)
        × (s'.process_count ≡ 6)
        × (s'.soft_block_count ≡ 2)
        × (s'.mem ≡ ticking.mem)
        × (s'.asl.procs.p_s ≡ update five.p_s 9 (state_copy (except_state ticking) blank_state))
        × (s'.asl.procs.p_time ≡ update five.p_time 9 (add32 0 (sub32 (reading ticking) 0))))
      (gen_exception_phase2 ticking)
unfolding exc_code
gen_exception_phase2-first_line_example = gen_exception_phase2-first_line ticking 1 refl refl (
    plt_interrupt-rotates ticking (1 ∷ 2 ∷ 3 ∷ []) 1 (2 ∷ 3 ∷ 9 ∷ []) ticking-IsNucleus refl refl
      refl refl)
