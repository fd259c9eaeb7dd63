-- ===== src/Nucleus/Calls.antt =====
-- The system calls that do not block and the one that is refused.
use os_fall_2021_project.Prelude.{
  ℕ, ◌+◌, ◌≡◌, refl, true, false, arith, ◌==◌, update, update_again, ap, [],
}
use os_fall_2021_project.Machine.Word.{null, add32, sub32, is_negative, is_nonpositive, error_code}
use os_fall_2021_project.Machine.Types.{State, set_reg, v0, a1, a2, a3}
use os_fall_2021_project.Machine.Outcome.{Stop, load_state, Stops, stops}
use os_fall_2021_project.Pcb
use os_fall_2021_project.Pcb.{Procs, is_pcb}
use os_fall_2021_project.Pcb.Free.{alloc_pcb}
use os_fall_2021_project.Pcb.FreeList.{FreeList}
use os_fall_2021_project.Nucleus.{
  Kernel, except_state, except_state_addr, has_bits, kup_on, device_sem, stck, K,
}
use os_fall_2021_project.Nucleus.Scheduler.{state_copy, switch_to, switch_state}
use os_fall_2021_project.Nucleus.Exceptions.{
  create_process, passeren, verhogen, wait_for_device, dev_sem_index, dispatch, syscall_handler,
}
use os_fall_2021_project.Nucleus.Semaphores.{behind_call}

-- `s` with the state `st` of the current process, the semaphores `m` and the saved states `f`.
abbrev pub gone_on : Kernel → State → (ℕ → ℕ) → (ℕ → State) → Kernel
gone_on s st m f = record s {
  mem = m;
  states = f;
  asl = record s.asl {
    procs = record s.asl.procs {
      p_s = update s.asl.procs.p_s s.current_proc (state_copy st (s.asl.procs.p_s s.current_proc));
    };
  };
}

-- The current process is loaded with the saved state `st`, behind the call; its pcb keeps that
-- state, as does the area where the exception saved it, the semaphores are `m`, and nothing else changes.
pub record GoesOn (s : Kernel) (st : State) (m : ℕ → ℕ) (e : Stop) (s' : Kernel) : Type 0 where
  pub loads : e ≡ load_state (state_copy (behind_call st) (s.asl.procs.p_s s.current_proc))
  pub rest : s' ≡ gone_on s (behind_call st) m (update s.states except_state_addr (behind_call st))

module _ (s : Kernel) (hc : is_pcb s.current_proc ≡ true) where
  -- SYS3 on a semaphore, not at the address 0, that is not below 0 when 1 is taken off, as a signed word: the caller, a pcb of the
  -- table, goes on behind the call, and nothing else changes but that value and these two copies of the state.
  pub passeren-passes :
      (k : ℕ)
      → (except_state s).s_reg a1 ≡ k
      → (k == 0) ≡ false
      → is_negative (sub32 (s.mem k) 1) ≡ false
      → Stops (GoesOn s (except_state s) (update s.mem k (sub32 (s.mem k) 1))) (passeren s)
  unfolding passeren switch_to switch_state Pcb.load Pcb.store
  passeren-passes k hk above free =
      let same : (k == k) ≡ true = ground arith in
      let own : (s.current_proc == s.current_proc) ≡ true = ground arith in
      simp (hk, above, same, free, hc, own) (stops (record { loads = refl; rest = refl }))

  -- SYS4 on a semaphore, not at the address 0, that is above 0 when 1 is added, as a signed word: the caller, a pcb of the table,
  -- goes on behind the call with the address of the semaphore in `s_v0`, and nothing else changes but
  -- that value and these two copies of the state.
  pub verhogen-counts :
      (k : ℕ)
      → (except_state s).s_reg a1 ≡ k
      → (k == 0) ≡ false
      → is_nonpositive (add32 (s.mem k) 1) ≡ false
      → Stops
          (GoesOn s (set_reg (except_state s) v0 k) (update s.mem k (add32 (s.mem k) 1)))
          (verhogen s)
  unfolding verhogen switch_to switch_state Pcb.load Pcb.store
  verhogen-counts k hk above free =
      let same : (k == k) ≡ true = ground arith in
      let own : (s.current_proc == s.current_proc) ≡ true = ground arith in
      simp (hk, above, same, free, hc, own)
        (stops (record {
          loads = refl;
          rest =
              ap
                (gone_on s (behind_call (set_reg (except_state s) v0 k))
                  (update s.mem k (add32 (s.mem k) 1)))
                (update_again s.states except_state_addr (set_reg (except_state s) v0 k)
                  (behind_call (set_reg (except_state s) v0 k)));
        }))

  -- SYS1 where no pcb is free: the caller, a pcb of the table, goes on behind the call with -1 in `s_v0`, and
  -- nothing else changes but these two copies of the state.
  pub create_process-refused :
      FreeList s.asl.procs []
      → (s.current_proc == null) ≡ false
      → Stops (GoesOn s (set_reg (except_state s) v0 error_code) s.mem) (create_process s)
  unfolding create_process alloc_pcb switch_to switch_state Pcb.load Pcb.store
  create_process-refused none some =
      let empty : (s.asl.procs.pcb_list_h == null) ≡ true = ground (arith, none.tail) in
      let own : (s.current_proc == s.current_proc) ≡ true = ground arith in
      simp (empty, some, hc, own)
        (stops (record {
          loads = refl;
          rest = ap (gone_on s (behind_call (set_reg (except_state s) v0 error_code)) s.mem) (
              update_again s.states except_state_addr (set_reg (except_state s) v0 error_code)
                (behind_call (set_reg (except_state s) v0 error_code)));
        }))

  -- SYS5 in kernel mode for a device whose semaphore is not below 0 when 1 is taken off, as a signed
  -- word, so that the operation is over already: the current process, a pcb of the table, is loaded with the
  -- state that it had when it was last saved, before the call, and nothing changes but that value and
  -- how often the clock was read. The clock has a time scale.
  pub syscall_handler-stale :
      (trap : K (Unit {0})) (k : ℕ)
      → has_bits (except_state s).s_status kup_on ≡ false
      → device_sem s (
          dev_sem_index
            ((except_state s).s_reg a1)
            ((except_state s).s_reg a2)
            ((except_state s).s_reg a3))
        ≡ k
      → is_negative (sub32 (s.mem k) 1) ≡ false
      → (s.hw.timescale == 0) ≡ false
      → Stops
          (λ e s'.
            (e ≡ load_state (s.asl.procs.p_s s.current_proc))
            × (s' ≡ record s {
              mem = update s.mem k (sub32 (s.mem k) 1);
              hw = record s.hw { tod_reads = s.hw.tod_reads + 1 };
            }))
          (syscall_handler trap 5 s)
  unfolding syscall_handler dispatch wait_for_device device_sem stck switch_to switch_state Pcb.load
  syscall_handler-stale trap k kernel hk ready scale =
      let some : (s.current_proc == null) ≡ false = ground arith in
      simp (kernel, scale) (simp (hk, ready) (simp (some, hc) (stops (refl, refl))))
