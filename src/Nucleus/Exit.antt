-- ===== src/Nucleus/Exit.antt =====
-- SYS2 of a process without children.
use os_fall_2021_project.Prelude.{
  ℕ, suc, ◌≡◌, refl, true, false, List, ◌∷◌, ◌++◌, arith, ◌==◌, has, has-append, ap,
}
use os_fall_2021_project.Machine.Word.{null, sub32, max_proc}
use os_fall_2021_project.Machine.Outcome.{ok, load_state, Stops, stops}
use os_fall_2021_project.Pcb
use os_fall_2021_project.Pcb.{Procs, is_pcb, mk_empty_proc_q, empty_proc_q}
use os_fall_2021_project.Pcb.Ring.{IsQueue-ne_null, IsQueue-valid}
use os_fall_2021_project.Pcb.Queue.{out_proc_q-none}
use os_fall_2021_project.Pcb.Tree.{empty_child}
use os_fall_2021_project.Asl.Entries.{Entry, pcbs_of}
use os_fall_2021_project.Nucleus.{Kernel, K, stck, set_timer}
use os_fall_2021_project.Nucleus.Scheduler.{switch_to, switch_state, scheduler}
use os_fall_2021_project.Nucleus.Exceptions.{terminate_process, children_loop, unqueue, count_out}
use os_fall_2021_project.Nucleus.Invariant.{IsNucleus, IsNucleus-frame}
use os_fall_2021_project.Nucleus.Queues.{IsNucleus-dispatch}

pub children_loop-childless :
    (fuel : ℕ) (terminate : ℕ → K (Unit {0})) (c : ℕ) (s : Kernel)
    → is_pcb c ≡ true
    → s.asl.procs.p_child c ≡ null
    → children_loop (suc fuel) terminate c s ≡ ok tt s
unfolding children_loop empty_child Pcb.load
children_loop-childless fuel terminate c s hc childless =
    let none : (s.asl.procs.p_child c == null) ≡ true = ground arith in simp (hc, none) refl

-- A pcb that is in no queue.
pub unqueue-absent :
    (c : ℕ) (s : Kernel) (ready : List ℕ) {es : List Entry} {fs : List ℕ}
    → IsNucleus s ready es fs
    → is_pcb c ≡ true
    → has c (ready ++ pcbs_of es) ≡ false
    → s.asl.procs.p_sem_add c ≡ null
    → unqueue c s ≡ ok tt s
unfolding unqueue count_out mk_empty_proc_q Pcb.load
unqueue-absent c s ready {es} inv hc out free =
    let away : has c ready ≡ false = ground (arith, has-append c ready (pcbs_of es)) in
    let absent = out_proc_q-none ready c inv.ready_queue away in
    let none : (s.asl.procs.p_sem_add c == null) ≡ true = ground arith in
    simp (hc, none, absent) refl

-- Where the running process has no children and is in no queue, a pcb is ready and the clock has a time
-- scale, its end, with fuel for one pcb at least, takes 1 off the process count and runs
-- the first ready pcb; its pcb is neither freed nor taken from its parent.
pub terminate_process-current :
    (fuel : ℕ) (s : Kernel) (r : ℕ) (ready : List ℕ) {es : List Entry} {fs : List ℕ}
    → IsNucleus s (r ∷ ready) es fs
    → is_pcb s.current_proc ≡ true
    → has s.current_proc ((r ∷ ready) ++ pcbs_of es) ≡ false
    → s.asl.procs.p_child s.current_proc ≡ null
    → s.asl.procs.p_sem_add s.current_proc ≡ null
    → (s.hw.timescale == 0) ≡ false
    → Stops
        (λ e s'.
          (e ≡ load_state (s.asl.procs.p_s r))
          × (s'.current_proc ≡ r)
          × IsNucleus s' ready es fs
          × (s'.process_count ≡ sub32 s.process_count 1)
          × (s'.soft_block_count ≡ s.soft_block_count)
          × (s'.mem ≡ s.mem)
          × (s'.asl.procs
              ≡ record s.asl.procs { p_next = s'.asl.procs.p_next; p_prev = s'.asl.procs.p_prev }))
        (terminate_process (suc fuel) s.current_proc s)
unfolding terminate_process empty_child scheduler stck set_timer empty_proc_q mk_empty_proc_q
    switch_to switch_state Pcb.load
terminate_process-current fuel s r ready {es} {fs} inv hc out childless free scale =
    let c = s.current_proc in
    let loop = children_loop-childless max_proc (terminate_process fuel) c s hc childless in
    let unqueued = unqueue-absent c s (r ∷ ready) inv hc out free in
    let (tp, pr, run, inv', only) = IsNucleus-dispatch r inv in
    let hr = IsQueue-valid r ready inv.ready_queue in
    let some_ready = IsQueue-ne_null r ready inv.ready_queue in
    let none : (s.asl.procs.p_child c == null) ≡ true = ground arith in
    let same : (c == c) ≡ true = ground arith in
    simp (loop, unqueued, hc, none, same, some_ready, run, hr, scale)
      (stops (
        ap (λ t. load_state (t.p_s r)) only.rest,
        refl,
        IsNucleus-frame _ _ inv' refl refl (λ b. (refl, refl, refl)),
        refl,
        refl,
        refl,
        only.rest,
      ))
