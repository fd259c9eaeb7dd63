-- ===== src/Nucleus/Dispatch.antt =====
-- What the scheduler does with the ready queue, and the copy of a processor state.
use native.Mathlib.Nat.{eq-zero-or-pos}
use os_fall_2021_project.Machine.Word.{null, is_negative, is_nonpositive}
use os_fall_2021_project.Prelude.{
  ◌⊎◌, inl, inr, true, [], ◌≤◌, ◌^◌, ℕ, zero, suc, ◌<◌, ◌≡◌, refl, false, List, ◌∷◌, arith, ◌==◌,
  ap,
}
use os_fall_2021_project.Machine.Types.{State, state_reg_num}
use os_fall_2021_project.Machine.Outcome.{
  load_state, halted, waiting, panicked, Stops, stops, Returns-eq,
}
use os_fall_2021_project.Pcb
use os_fall_2021_project.Pcb.{Procs, empty_proc_q}
use os_fall_2021_project.Pcb.Ring.{IsQueue, IsQueue-ne_null, IsQueue-valid}
use os_fall_2021_project.Pcb.Queue.{remove_proc_q-first}
use os_fall_2021_project.Nucleus.{Kernel, stck, set_timer, set_status}
use os_fall_2021_project.Nucleus.Scheduler.{
  copy_regs, state_copy, switch_to, switch_state, scheduler,
}

copy_regs-lt : (n : ℕ) (source sink : ℕ → ℕ) (i : ℕ) → i < n → copy_regs n source sink i ≡ source i
unfolding copy_regs
copy_regs-lt zero source sink i h = absurd (omega arith)
copy_regs-lt (suc n) source sink i h = ground (arith, copy_regs-lt n source sink i)

-- Each of the 31 registers of the state is copied.
pub state_copy-reg :
    (source sink : State) (i : ℕ) → i < 31 → (state_copy source sink).s_reg i ≡ source.s_reg i
unfolding state_copy
state_copy-reg source sink i h = copy_regs-lt state_reg_num source.s_reg sink.s_reg i h

-- With a pcb in the ready queue the scheduler loads the state of the first one, which is the current
-- process then, and sets the timer to a time slice; the others stay in order, and neither the counts nor the
-- semaphores change. The clock has a time scale.
pub scheduler-first :
    (s : Kernel) (p : ℕ) (q : List ℕ)
    → IsQueue s.asl.procs s.ready_q (p ∷ q)
    → (s.hw.timescale == 0) ≡ false
    → Stops
        (λ e s'.
          (e ≡ load_state (s.asl.procs.p_s p))
          × (s'.current_proc ≡ p)
          × IsQueue s'.asl.procs s'.ready_q q
          × (s'.hw.local_timer ≡ 5000)
          × (s'.process_count ≡ s.process_count)
          × (s'.soft_block_count ≡ s.soft_block_count)
          × (s'.asl.semds ≡ s.asl.semds)
          × (s'.mem ≡ s.mem))
        (scheduler s)
unfolding scheduler switch_to switch_state stck set_timer empty_proc_q Pcb.load
scheduler-first s p q queue scale =
    let ((r, tp), pr, run, (first, left, only)) = Returns-eq (remove_proc_q-first p q queue) in
    let ready = IsQueue-ne_null p q queue in
    let hp = IsQueue-valid p q queue in
    let state : pr.p_s p ≡ s.asl.procs.p_s p = ap (λ t. t.p_s p) only.rest in
    simp (ready, run, first, hp, state, scale)
      (stops (refl, refl, left, refl, refl, refl, refl, refl))

-- With an empty ready queue the scheduler never returns: it halts where there is no process, waits with the
-- interrupts enabled where a process is soft-blocked, and panics where there are processes and none of them
-- is, which is a deadlock. The counts, read as signed words, are not negative, and without a process none
-- is soft-blocked.
pub scheduler-idle :
    (s : Kernel)
    → IsQueue s.asl.procs s.ready_q []
    → s.process_count < 2 ^ 31
    → s.soft_block_count ≤ s.process_count
    → Stops
        (λ e s'.
          ((e ≡ halted) × (s.process_count ≡ 0) × (s' ≡ s))
          ⊎ (((e ≡ waiting)
                × (0 < s.soft_block_count)
                × (s' ≡ record s { hw = record s.hw { status = 0xff01 } }))
              ⊎ ((e ≡ panicked) × (0 < s.process_count) × (s.soft_block_count ≡ 0) × (s' ≡ s))))
        (scheduler s)
unfolding scheduler set_status empty_proc_q
scheduler-idle s queue hp hs =
    let ready : (s.ready_q == null) ≡ true = ground (arith, queue.tail) in
    elim (eq-zero-or-pos s.process_count) [
      | inl none ↦
          let zero_p : (s.process_count == 0) ≡ true = ground arith in
          simp (ready, zero_p) (stops (inl (refl, none, refl)))
      | inr some_p ↦
          let pos_p : (s.process_count == 0) ≡ false = ground arith in
          let signed_p : is_negative s.process_count ≡ false = ground arith in
          elim (eq-zero-or-pos s.soft_block_count) [
            | inl none ↦
                let zero_s : is_nonpositive s.soft_block_count ≡ true = ground arith in
                simp (ready, pos_p, signed_p, zero_s) (stops (inr (inr (refl, some_p, none, refl))))
            | inr some_s ↦
                let pos_s : is_nonpositive s.soft_block_count ≡ false = ground arith in
                simp (ready, pos_p, pos_s) (stops (inr (inl (refl, some_s, refl))))
          ]
    ]
