-- ===== src/Nucleus/Death.antt =====
-- A process without a support structure dies of an exception that the nucleus does not serve.
use os_fall_2021_project.Prelude.{
  ℕ, ◌≡◌, refl, true, false, Bool, not, ◌&&◌, ◌||◌, List, ◌∷◌, arith, ◌==◌, leb, without,
  Bool-cases, inl, inr,
}
use os_fall_2021_project.Machine.Word.{null, is_negative}
use os_fall_2021_project.Machine.Types.{State, a0}
use os_fall_2021_project.Machine.Outcome.{Stop, load_state, Stops, Stops-bind}
use os_fall_2021_project.Pcb
use os_fall_2021_project.Pcb.{is_pcb}
use os_fall_2021_project.Asl.Entries.{Entry}
use os_fall_2021_project.Nucleus.{Kernel, except_state, has_bits, kup_on}
use os_fall_2021_project.Nucleus.Exceptions.{
  pass_up_or_die, terminate_process, tree_fuel, syscall_handler, dispatch, general_except,
  pg_fault_except,
}
use os_fall_2021_project.Nucleus.Initial.{gen_exception_handler, exc_code}
use os_fall_2021_project.Nucleus.Phases.{gen_exception_phase2, trap_phase2}
use os_fall_2021_project.Nucleus.Family.{Family, members_of}
use os_fall_2021_project.Nucleus.Terminate.{IsRunning, Exited, terminate_process-tree}

-- A system call in user mode with a code up to 8, as a signed word, or any with a code that is not 1 to 8.
abbrev pub is_refused : State → Bool
is_refused st =
    let code = st.s_reg a0 in
    has_bits st.s_status kup_on && (is_negative code || leb code 8)
    || not (leb 1 code && leb code 8)

-- An exception that is no interrupt and no system call that the nucleus executes.
abbrev pub is_unserved : State → Bool
is_unserved st = not (exc_code st == 0) && (not (exc_code st == 8) || is_refused st)

dispatch-other :
    (code : ℕ) → (leb 1 code && leb code 8) ≡ false → dispatch code ≡ pass_up_or_die general_except
unfolding dispatch
dispatch-other code h =
    let c1 : (code == 1) ≡ false = ground arith in
    let c2 : (code == 2) ≡ false = ground arith in
    let c3 : (code == 3) ≡ false = ground arith in
    let c4 : (code == 4) ≡ false = ground arith in
    let c5 : (code == 5) ≡ false = ground arith in
    let c6 : (code == 6) ≡ false = ground arith in
    let c7 : (code == 7) ≡ false = ground arith in
    let c8 : (code == 8) ≡ false = ground arith in simp (c1, c2, c3, c4, c5, c6, c7, c8) refl

module _ {P : Stop → Kernel → Type 0} (s : Kernel) (hc : is_pcb s.current_proc ≡ true)
    (alone : s.asl.procs.p_support_struct s.current_proc ≡ null)
    (ends : Stops P (terminate_process tree_fuel s.current_proc s)) where
  dies : (pass_up_case : ℕ) → Stops P (pass_up_or_die pass_up_case s)
  unfolding pass_up_or_die Pcb.load
  dies pass_up_case =
      let none : (s.asl.procs.p_support_struct s.current_proc == null) ≡ true = ground arith in
      simp (hc, none) (Stops-bind _ ends)

  refused_dies :
      is_refused (except_state s) ≡ true
      → Stops P (syscall_handler trap_phase2 ((except_state s).s_reg a0) s)
  unfolding syscall_handler trap_phase2
  refused_dies h =
      let code = (except_state s).s_reg a0 in
      elim (Bool-cases
        (has_bits (except_state s).s_status kup_on && (is_negative code || leb code 8))) [
          | inl user ↦ rw user (Stops-bind _ (dies general_except))
          | inr kernel ↦
              let other : (leb 1 code && leb code 8) ≡ false = ground (arith, h, kernel) in
              rw kernel (rw (dispatch-other code other) (Stops-bind _ (dies general_except)))
        ]

  unserved_dies : is_unserved (except_state s) ≡ true → Stops P (gen_exception_phase2 s)
  unfolding gen_exception_phase2 gen_exception_handler
  unserved_dies h =
      let code = exc_code (except_state s) in
      let busy : (code == 0) ≡ false = ground (arith, h) in
      elim (Bool-cases (leb code 3)) [
        | inl tlb ↦ rw (busy, tlb) (Stops-bind _ (dies pg_fault_except))
        | inr above ↦ elim (Bool-cases (code == 8)) [
          | inl call ↦
              let refused : is_refused (except_state s) ≡ true = ground (arith, h, call) in
              rw (busy, above, call) (Stops-bind _ (refused_dies refused))
          | inr other ↦ rw (busy, above, other) (Stops-bind _ (dies general_except))
        ]
      ]

-- In phase 2, an exception that is neither an interrupt nor a system call that the nucleus executes (a call in
-- user mode with a code up to 8, as a signed word, or any with a code that is not 1 to 8), by a process without a support structure, ends
-- that process and all its descendants as SYS2 does, and runs the first ready pcb that is left, under the
-- conditions of SYS2: the process is in no queue, every descendant is in one, a pcb is ready that is none of
-- them, the queues, the free list and the tree are well-formed, a ready pcb waits for nothing, and the
-- clock has a time scale.
pub gen_exception_phase2-dies :
    (s : Kernel) (fam : Family) (ready : List ℕ) (r : ℕ) (rest : List ℕ) {es : List Entry}
    {fs free : List ℕ}
    → is_unserved (except_state s) ≡ true
    → s.asl.procs.p_support_struct s.current_proc ≡ null
    → IsRunning s ready es fs free fam
    → without (members_of fam) ready ≡ r ∷ rest
    → (s.hw.timescale == 0) ≡ false
    → Stops
        (λ e s'.
          (e ≡ load_state (s.asl.procs.p_s r))
          × (s'.current_proc ≡ r)
          × Exited s es free (members_of fam) rest s')
        (gen_exception_phase2 s)
gen_exception_phase2-dies s fam ready r rest unserved alone run left scale =
    unserved_dies s run.valid alone (terminate_process-tree s fam ready r rest run left scale)
      unserved
