-- ===== src/Nucleus/Scheduler.antt =====
-- scheduler.c of phase 3 (phase 2 has the same text).
use os_fall_2021_project.Prelude.{ℕ, zero, suc, ◌+◌, ◌&&◌, not, ◌==◌, if◌then◌else◌, update}
use os_fall_2021_project.Machine.Word.{is_nonpositive}
use os_fall_2021_project.Machine.Types.{State, state_reg_num}
use os_fall_2021_project.Machine.Outcome.{
  load_state, halted, panicked, waiting, pure, ◌>>=◌, ◌>>◌, get, modify,
}
use os_fall_2021_project.Pcb
use os_fall_2021_project.Pcb.{Procs, empty_proc_q, remove_proc_q}
use os_fall_2021_project.Nucleus.{
  K, on_procs, exit, im_on, iec_on, time_slice, stck, set_timer, set_status,
}

-- The loop of `stateCopy` over the registers below `n`.
unfoldable pub copy_regs : ℕ → (source sink : ℕ → ℕ) → ℕ → ℕ
copy_regs zero source sink = sink
copy_regs (suc n) source sink = update (copy_regs n source sink) n (source n)

unfoldable pub state_copy : (source sink : State) → State
unfolding copy_regs
state_copy source sink = record {
  s_cause = source.s_cause;
  s_entry_hi = source.s_entry_hi;
  s_pc = source.s_pc;
  s_status = source.s_status;
  s_reg = copy_regs state_reg_num source.s_reg sink.s_reg;
}

unfoldable pub switch_state : {A : Type 0} → State → K A
switch_state st = exit (load_state st)

-- `&(p->p_s)` as an argument of `switchState`.
unfoldable pub switch_to : {A : Type 0} → ℕ → K A
unfolding switch_state
switch_to p = do st ← on_procs (Pcb.load (λ s. s.p_s) p); switch_state st

unfoldable pub scheduler : K (Unit {0})
unfolding empty_proc_q switch_to stck set_timer set_status
scheduler = do
  s ← get
  if not (empty_proc_q s.ready_q)
      then (do
        (p, tp) ← on_procs (remove_proc_q s.ready_q)
        modify (λ t. record t { ready_q = tp; current_proc = p })
        set_timer time_slice
        now ← stck
        modify (λ t. record t { start_tod = now })
        switch_to p)
      else if s.process_count == 0
      then exit halted
      else if not (is_nonpositive s.soft_block_count)
      then (do set_status (iec_on + im_on); exit waiting)
      else if not (is_nonpositive s.process_count) && is_nonpositive s.soft_block_count
      then exit panicked
      else pure tt
