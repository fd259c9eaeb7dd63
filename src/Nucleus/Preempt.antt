-- ===== src/Nucleus/Preempt.antt =====
-- The interrupt of the process local timer: the end of a time slice.
use mathlib.Core.Path.{subst}
use os_fall_2021_project.Prelude.{
  ℕ, ◌≡◌, refl, true, false, List, [], ◌∷◌, ◌++◌, arith, ◌==◌, has, update, ap, ◌∙◌,
}
use os_fall_2021_project.Machine.Word.{null, add32, sub32}
use os_fall_2021_project.Machine.Outcome.{load_state, Stops, stops}
use os_fall_2021_project.Pcb
use os_fall_2021_project.Pcb.{Procs, is_pcb, mk_empty_proc_q, empty_proc_q}
use os_fall_2021_project.Pcb.Ring.{IsQueue-valid}
use os_fall_2021_project.Asl.Entries.{Entry, pcbs_of}
use os_fall_2021_project.Nucleus.{Kernel, except_state, stck, set_timer, time_slice}
use os_fall_2021_project.Nucleus.Scheduler.{state_copy, switch_to, switch_state, scheduler}
use os_fall_2021_project.Nucleus.Exceptions.{make_ready, save_current, copy_to_pcb, charge_time}
use os_fall_2021_project.Nucleus.Interrupts.{plt_interrupt}
use os_fall_2021_project.Nucleus.Invariant.{IsNucleus, IsNucleus-frame}
use os_fall_2021_project.Nucleus.Queues.{IsNucleus-ready, IsNucleus-dispatch}
use os_fall_2021_project.Nucleus.Waiting.{reading}

-- At the end of its time slice the running process, which is in no queue, comes behind the ready ones, with
-- its state saved and its time charged, and the first of these runs with a new time slice; the counts and the
-- semaphores stay. The clock has a time scale.
pub plt_interrupt-rotates :
    (s : Kernel) (ready : List ℕ) (r : ℕ) (next : List ℕ) {es : List Entry} {fs : List ℕ}
    → IsNucleus s ready es fs
    → is_pcb s.current_proc ≡ true
    → has s.current_proc (ready ++ pcbs_of es) ≡ false
    → (s.hw.timescale == 0) ≡ false
    → ready ++ s.current_proc ∷ [] ≡ r ∷ next
    → Stops
        (λ e s'.
          (e ≡ load_state (s'.asl.procs.p_s r))
          × (s'.current_proc ≡ r)
          × IsNucleus s' next es fs
          × (s'.hw.local_timer ≡ time_slice)
          × (s'.process_count ≡ s.process_count)
          × (s'.soft_block_count ≡ s.soft_block_count)
          × (s'.mem ≡ s.mem)
          × (s'.asl.procs.p_s
              ≡ update s.asl.procs.p_s s.current_proc
                  (state_copy (except_state s) (s.asl.procs.p_s s.current_proc)))
          × (s'.asl.procs.p_time
              ≡ update s.asl.procs.p_time s.current_proc
                  (add32 (s.asl.procs.p_time s.current_proc) (sub32 (reading s) s.start_tod))))
        (plt_interrupt s)
unfolding plt_interrupt charge_time save_current copy_to_pcb make_ready scheduler stck set_timer
    empty_proc_q mk_empty_proc_q switch_to switch_state Pcb.load Pcb.store
plt_interrupt-rotates s ready r next {es} {fs} inv hc out scale first =
    let c = s.current_proc in
    let s1 : Kernel = record s {
      asl = record s.asl {
        procs = record s.asl.procs {
          p_s = update s.asl.procs.p_s c (state_copy (except_state s) (s.asl.procs.p_s c));
          p_time =
              update s.asl.procs.p_time c
                (add32 (s.asl.procs.p_time c) (sub32 (reading s) s.start_tod));
        };
      };
    } in
    let (pr, put, inv1, only) =
      IsNucleus-ready {s = s1} c (IsNucleus-frame s s1 inv refl refl (λ b. (refl, refl, refl))) hc
        out in
    let s2 : Kernel = record s { ready_q = c; asl = record s.asl { procs = pr } } in
    let inv2 : IsNucleus s2 (r ∷ next) es fs = subst (λ l. IsNucleus s2 l es fs) first inv1 in
    let (tp, pr', run, inv3, only') = IsNucleus-dispatch r inv2 in
    let hr = IsQueue-valid r next inv2.ready_queue in
    let some_c : (c == null) ≡ false = ground arith in
    simp (some_c, hc, put, run, hr, scale)
      (stops (
        refl,
        refl,
        IsNucleus-frame _ _ inv3 refl refl (λ b. (refl, refl, refl)),
        refl,
        refl,
        refl,
        refl,
        ap (λ t. t.p_s) only'.rest ∙ ap (λ t. t.p_s) only.rest,
        ap (λ t. t.p_time) only'.rest ∙ ap (λ t. t.p_time) only.rest,
      ))
