-- ===== src/Nucleus/Clock.antt =====
-- The interrupt of the interval timer: all pcbs that wait for the clock become ready.
use mathlib.Core.List.{append-nil}
use mathlib.Core.Path.{subst, sym}
use os_fall_2021_project.Prelude.{
  has-append, ℕ, suc, ◌*◌, ◌%◌, ◌<◌, ◌^◌, ◌≡◌, refl, true, false, List, [], ◌∷◌, ◌++◌, arith, ◌==◌,
  has, update, ap, length, ◌∙◌,
}
use os_fall_2021_project.Machine.Word.{null, sub32, max_proc}
use os_fall_2021_project.Machine.Outcome.{
  ok, load_state, Stops, stops, Stops-mono, Returns-eq, ◌>>◌,
}
use os_fall_2021_project.Pcb
use os_fall_2021_project.Pcb.{is_pcb, empty_proc_q, mk_empty_proc_q}
use os_fall_2021_project.Pcb.Ring.{IsQueue-ne_null, IsQueue-valid, IsQueue-length}
use os_fall_2021_project.Asl.{Asl, remove_blocked}
use os_fall_2021_project.Asl.Entries.{Entry, keys_of, pcbs_of, pcbs_of-append, Sorted}
use os_fall_2021_project.Asl.Insert.{Sorted-small, IsAsl-Around}
use os_fall_2021_project.Asl.Remove.{remove_blocked-none}
use os_fall_2021_project.Asl.Wait.{waiting_on, free_with, pcbs_of-waiting_on, between-new}
use os_fall_2021_project.Nucleus.{
  Kernel, except_state, clock_sem, device_sem, ldit, stck, set_timer,
}
use os_fall_2021_project.Nucleus.Scheduler.{state_copy, switch_to, switch_state, scheduler}
use os_fall_2021_project.Nucleus.Exceptions.{make_ready, save_current, copy_to_pcb}
use os_fall_2021_project.Nucleus.Interrupts.{release_loop, it_interrupt}
use os_fall_2021_project.Nucleus.Invariant.{IsNucleus, IsNucleus-frame}
use os_fall_2021_project.Nucleus.Queues.{IsNucleus-remove, IsNucleus-ready, IsNucleus-dispatch}
use os_fall_2021_project.Nucleus.Release.{Released, release_loop-all}

sub32_zero : (a : ℕ) → a < 2 ^ 32 → a ≡ sub32 a 0
unfolding sub32
sub32_zero a h = omega arith

-- The walk of the queue of the clock, from its first pcb on.
clock_queue :
    (s : Kernel) (ready : List ℕ) (xs : List Entry) (d k : ℕ) (q : List ℕ) (ys : List Entry)
    (fs : List ℕ)
    → Sorted 0 (keys_of xs ++ k ∷ keys_of ys)
    → IsNucleus s ready (waiting_on xs d k q ys) (free_with d q fs)
    → clock_sem s ≡ k
    → s.soft_block_count < 2 ^ 32
    → (p : ℕ) × (a : Asl) × (t : Kernel) × (remove_blocked k s.asl ≡ ok p a)
      × (release_loop (suc max_proc) p (record s { asl = a }) ≡ ok tt t)
      × IsNucleus t (ready ++ q) (xs ++ ys) (d ∷ fs)
      × Released s (length q) t
unfolding release_loop clock_sem device_sem mk_empty_proc_q
clock_queue s ready xs d k [] ys fs sorted inv hk hs = (
  null,
  s.asl,
  s,
  remove_blocked-none (xs ++ ys) k inv.asl (Sorted-small 0 (keys_of xs) k (keys_of ys) sorted)
      (between-new 0 xs ys k sorted),
  refl,
  subst (λ r. IsNucleus s r (xs ++ ys) (d ∷ fs)) (sym (append-nil ready)) inv,
  record { count = sub32_zero s.soft_block_count hs; rest = refl; states = refl },
)
clock_queue s ready xs d k (p ∷ q) ys fs sorted inv hk hs =
    let (a, taken, inv', out, hp, spares) = IsNucleus-remove xs d k p q ys inv in
    let count = IsQueue-length (p ∷ q) (IsAsl-Around xs d k (p ∷ q) ys inv.asl).queued in
    let (u, t, run, (after, released)) = Returns-eq (
      release_loop-all xs d k ys fs sorted (suc max_proc) (record s { asl = a }) ready p q inv' hk
        hp out (omega (arith, count)) (omega (arith, count))) in
    (
      p,
      a,
      t,
      taken,
      run,
      after,
      record {
        count = released.count;
        rest = released.rest;
        states = released.states ∙ ap (λ t. t.p_s) spares.rest;
      },
    )

has-moved :
    (c : ℕ) (ready xs q ys : List ℕ)
    → has c (ready ++ (xs ++ (q ++ ys))) ≡ false
    → has c ((ready ++ q) ++ (xs ++ ys)) ≡ false
has-moved c ready xs q ys h = ground (
  arith,
  has-append c ready (xs ++ (q ++ ys)),
  has-append c xs (q ++ ys),
  has-append c q ys,
  has-append c (ready ++ q) (xs ++ ys),
  has-append c ready q,
  has-append c xs ys,
)

-- The process that ran comes behind the ready ones, and the first of these runs.
requeue_current :
    (s : Kernel) (ready : List ℕ) {es : List Entry} {fs : List ℕ} (r : ℕ) (next : List ℕ)
    → IsNucleus s ready es fs
    → is_pcb s.current_proc ≡ true
    → has s.current_proc (ready ++ pcbs_of es) ≡ false
    → (s.hw.timescale == 0) ≡ false
    → ready ++ s.current_proc ∷ [] ≡ r ∷ next
    → Stops
        (λ e s'.
          (e ≡ load_state (s'.asl.procs.p_s r))
          × (s'.current_proc ≡ r)
          × IsNucleus s' next es fs
          × (s'.mem ≡ s.mem)
          × (s'.soft_block_count ≡ s.soft_block_count)
          × (s'.asl.procs.p_s
              ≡ update s.asl.procs.p_s s.current_proc
                  (state_copy (except_state s) (s.asl.procs.p_s s.current_proc))))
        ((save_current >> (make_ready s.current_proc >> scheduler)) s)
unfolding save_current copy_to_pcb make_ready scheduler stck set_timer empty_proc_q mk_empty_proc_q
    switch_to switch_state Pcb.load Pcb.store
requeue_current s ready {es} {fs} r next inv hc out scale first =
    let c = s.current_proc in
    let saved = state_copy (except_state s) (s.asl.procs.p_s c) in
    let s1 : Kernel = record s {
      asl = record s.asl { procs = record s.asl.procs { p_s = update s.asl.procs.p_s c saved } };
    } in
    let (pr, put, inv1, only) =
      IsNucleus-ready {s = s1} c (IsNucleus-frame s s1 inv refl refl (λ b. (refl, refl, refl))) hc
        out in
    let s2 : Kernel = record s { ready_q = c; asl = record s.asl { procs = pr } } in
    let inv2 : IsNucleus s2 (r ∷ next) es fs = subst (λ l. IsNucleus s2 l es fs) first inv1 in
    let (tp, pr', run, inv3, only') = IsNucleus-dispatch r inv2 in
    let hr = IsQueue-valid r next inv2.ready_queue in
    let some_ready = IsQueue-ne_null r next inv2.ready_queue in
    simp (hc, put, some_ready, run, hr, scale)
      (stops (
        refl,
        refl,
        IsNucleus-frame _ _ inv3 refl refl (λ b. (refl, refl, refl)),
        refl,
        refl,
        ap (λ t. t.p_s) only'.rest ∙ ap (λ t. t.p_s) only.rest,
      ))

-- The interrupt of the interval timer while a process runs that is in no queue, with all queues well-formed
-- and apart, a count of soft-blocked processes that is a word, and a time scale: all pcbs that wait for the
-- clock, if any, become ready, in order, and the process that ran comes behind them with its state saved; the
-- queues stay well-formed and apart, the semaphore of the clock is 0 and the count smaller by the number of
-- those released, and the first ready pcb runs. The loop ends within its rounds.
pub it_interrupt-releases :
    (s : Kernel) (ready : List ℕ) (xs : List Entry) (d k : ℕ) (q : List ℕ) (ys : List Entry)
    (fs : List ℕ) (r : ℕ) (next : List ℕ)
    → Sorted 0 (keys_of xs ++ k ∷ keys_of ys)
    → IsNucleus s ready (waiting_on xs d k q ys) (free_with d q fs)
    → clock_sem s ≡ k
    → s.soft_block_count < 2 ^ 32
    → is_pcb s.current_proc ≡ true
    → has s.current_proc (ready ++ pcbs_of (waiting_on xs d k q ys)) ≡ false
    → (s.hw.timescale == 0) ≡ false
    → (ready ++ q) ++ s.current_proc ∷ [] ≡ r ∷ next
    → Stops
        (λ e s'.
          (e ≡ load_state (s'.asl.procs.p_s r))
          × (s'.current_proc ≡ r)
          × IsNucleus s' next (xs ++ ys) (d ∷ fs)
          × (s'.mem ≡ update s.mem k 0)
          × (s'.soft_block_count ≡ sub32 s.soft_block_count (length q))
          × (s'.asl.procs.p_s
              ≡ update s.asl.procs.p_s s.current_proc
                  (state_copy (except_state s) (s.asl.procs.p_s s.current_proc))))
        (it_interrupt s)
unfolding it_interrupt ldit save_current copy_to_pcb make_ready scheduler stck set_timer
    empty_proc_q mk_empty_proc_q switch_to switch_state Pcb.load Pcb.store clock_sem device_sem
it_interrupt-releases s ready xs d k q ys fs r next sorted inv hk hs hc out scale first =
    let c = s.current_proc in
    let s0 : Kernel = record s {
      hw = record s.hw { interval_timer = 100_000 * s.hw.timescale % 2 ^ 32 };
    } in
    let (p, a, t, taken, walk, after, released) =
      clock_queue s0 ready xs d k q ys fs sorted
        (IsNucleus-frame s s0 inv refl refl (λ b. (refl, refl, refl))) hk hs in
    let c_stays : t.current_proc ≡ c = ap (λ u. u.current_proc) released.rest in
    let some_c : (t.current_proc == null) ≡ false = rw c_stays (ground arith) in
    let t1 : Kernel = record t { mem = update t.mem k 0 } in
    let far : has c ((ready ++ q) ++ pcbs_of (xs ++ ys)) ≡ false =
      rw (pcbs_of-append xs ys) (
        has-moved c ready (pcbs_of xs) q (pcbs_of ys)
          (rw (← pcbs_of-waiting_on xs d k q ys) out)) in
    let scale' : (t.hw.timescale == 0) ≡ false =
      ap (λ u. u.hw.timescale == 0) released.rest ∙ scale in
    let rest =
      requeue_current t1 (ready ++ q) r next
        (IsNucleus-frame t t1 after refl refl (λ b. (refl, refl, refl))) (rw c_stays hc)
        (subst (λ b. has b ((ready ++ q) ++ pcbs_of (xs ++ ys)) ≡ false) (sym c_stays) far) scale'
        (rw c_stays first) in
    simp (taken, hk, walk, some_c)
      (Stops-mono rest λ e s' (loads, runs, queues, memory, count, states). (
        loads,
        runs,
        queues,
        memory ∙ ap (λ u. update u.mem k 0) released.rest,
        count ∙ released.count,
        states
            ∙ ap
                (λ (u : Kernel).
                  update t.asl.procs.p_s u.current_proc
                    (state_copy (except_state u) (t.asl.procs.p_s u.current_proc)))
                released.rest
            ∙ ap (λ m. update m c (state_copy (except_state s) (m c))) released.states,
      ))
