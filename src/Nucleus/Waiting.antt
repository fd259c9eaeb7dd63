-- ===== src/Nucleus/Waiting.antt =====
-- SYS5 and SYS7: the caller waits for a device or for the clock, and is soft-blocked.
use os_fall_2021_project.Prelude.{
  ℕ, suc, ◌≡◌, refl, true, false, List, [], ◌∷◌, ◌++◌, arith, ◌==◌, has, update, update_self,
  update_ne, ap, length, ◌∙◌,
}
use os_fall_2021_project.Machine.Word.{add32, sub32}
use os_fall_2021_project.Machine.Types.{a1, a2, a3}
use os_fall_2021_project.Machine.Outcome.{ok, load_state, Stops, stops}
use os_fall_2021_project.Pcb
use os_fall_2021_project.Pcb.{Procs, is_pcb, mk_empty_proc_q, empty_proc_q, remove_proc_q}
use os_fall_2021_project.Asl.{Asl, insert_blocked}
use os_fall_2021_project.Pcb.Ring.{IsQueue-ne_null, IsQueue-valid}
use os_fall_2021_project.Asl.Entries.{Entry, keys_of, pcbs_of, Sorted}
use os_fall_2021_project.Asl.Around.{entry}
use os_fall_2021_project.Asl.Wait.{waiting_on, free_with}
use os_fall_2021_project.Nucleus.{
  Kernel, except_state, device_sem, clock_sem, div_signed, stck, set_timer,
}
use os_fall_2021_project.Nucleus.Scheduler.{state_copy, switch_to, switch_state, scheduler}
use os_fall_2021_project.Nucleus.Exceptions.{
  save_current, copy_to_pcb, advance_pc, charge_time, dev_sem_index, wait_for_device,
  wait_for_clock,
}
use os_fall_2021_project.Nucleus.Invariant.{IsNucleus, IsNucleus-frame}
use os_fall_2021_project.Nucleus.Queues.{IsNucleus-dispatch, IsNucleus-insert}
use os_fall_2021_project.Nucleus.Semaphores.{
  minus, minus-sub32, minus_negative, waiting-length, behind_call,
}

-- The time of the next reading of the clock.
abbrev pub reading : Kernel → ℕ
reading s = div_signed (s.hw.todlo s.hw.tod_reads) s.hw.timescale

-- The running process waits on the semaphore `k` behind `q`, soft-blocked and charged for its time, and
-- `r` runs.
pub record SoftBlocked (s : Kernel) (r : ℕ) (ready : List ℕ) (xs : List Entry) (d k : ℕ)
    (q : List ℕ) (ys : List Entry) (fs : List ℕ) (s' : Kernel) : Type 0 where
  pub runs : s'.current_proc ≡ r
  pub queues : IsNucleus s' ready (xs ++ entry d k (q ++ s.current_proc ∷ []) ∷ ys) fs
  pub value : s'.mem ≡ update s.mem k (minus (suc (length q)))
  pub count : s'.soft_block_count ≡ add32 s.soft_block_count 1
  pub saved :
      s'.asl.procs.p_s s.current_proc
      ≡ state_copy (behind_call (except_state s)) (s.asl.procs.p_s s.current_proc)
  pub time :
      s'.asl.procs.p_time s.current_proc
      ≡ add32 (s.asl.procs.p_time s.current_proc) (sub32 (reading s) s.start_tod)

-- The running process with its state and its time in its pcb.
abbrev charged : Kernel → Procs
charged s = record s.asl.procs {
  p_s =
      update s.asl.procs.p_s s.current_proc
        (state_copy (behind_call (except_state s)) (s.asl.procs.p_s s.current_proc));
  p_time =
      update s.asl.procs.p_time s.current_proc
        (add32 (s.asl.procs.p_time s.current_proc) (sub32 (reading s) s.start_tod));
}

module _ (s : Kernel) (r : ℕ) (ready : List ℕ) (xs : List Entry) (d k : ℕ) (q : List ℕ)
    (ys : List Entry) (fs : List ℕ)
    (inv : IsNucleus s (r ∷ ready) (waiting_on xs d k q ys) (free_with d q fs))
    (sorted : Sorted 0 (keys_of xs ++ k ∷ keys_of ys)) (hm : s.mem k ≡ minus (length q))
    (hc : is_pcb s.current_proc ≡ true)
    (out : has s.current_proc ((r ∷ ready) ++ pcbs_of (waiting_on xs d k q ys)) ≡ false)
    (scale : (s.hw.timescale == 0) ≡ false) where
  -- What the two system calls do to the queues.
  soft_block :
      (a : Asl) × (tp : ℕ) × (pr : Procs) × (insert_blocked k s.current_proc
          (record s.asl { procs = charged s })
        ≡ ok false a)
      × (remove_proc_q s.ready_q a.procs ≡ ok (r, tp) pr)
      × (is_pcb r ≡ true)
      × (empty_proc_q s.ready_q ≡ false)
      × (pr.p_s r ≡ s.asl.procs.p_s r)
      × ((t : Kernel)
          → t.asl ≡ record a { procs = pr }
          → t.ready_q ≡ tp
          → t.current_proc ≡ r
          → t.mem ≡ update s.mem k (minus (suc (length q)))
          → t.soft_block_count ≡ add32 s.soft_block_count 1
          → SoftBlocked s r ready xs d k q ys fs t)
  unfolding empty_proc_q
  soft_block =
      let c = s.current_proc in
      let s1 : Kernel = record s { asl = record s.asl { procs = charged s } } in
      let inv1 = IsNucleus-frame s s1 inv refl refl (λ b. (refl, refl, refl)) in
      let (a, put, inv2, spares) = IsNucleus-insert {s = s1} xs d k q ys fs c inv1 sorted hc out in
      let (tp, pr, run, inv3, only) = IsNucleus-dispatch r inv2 in
      let states : pr.p_s ≡ (charged s).p_s =
        ap (λ t. t.p_s) only.rest ∙ ap (λ t. t.p_s) spares.rest in
      let times : pr.p_time ≡ (charged s).p_time =
        ap (λ t. t.p_time) only.rest ∙ ap (λ t. t.p_time) spares.rest in
      (
        a,
        tp,
        pr,
        put,
        run,
        IsQueue-valid r ready inv2.ready_queue,
        IsQueue-ne_null r ready inv2.ready_queue,
        ap (λ m. m r) states ∙ update_ne s.asl.procs.p_s c _ r (ground arith),
        λ t ha hq hr hv hn. record {
          runs = hr;
          queues = IsNucleus-frame _ t inv3 hq (ap (λ x. x.semds) ha) (λ b. (
            ap (λ x. x.procs.p_next b) ha,
            ap (λ x. x.procs.p_prev b) ha,
            ap (λ x. x.procs.p_sem_add b) ha,
          ));
          value = hv;
          count = hn;
          saved =
              ap (λ x. x.procs.p_s c) ha ∙ ap (λ m. m c) states ∙ update_self s.asl.procs.p_s c _;
          time =
              ap (λ x. x.procs.p_time c) ha
              ∙ ap (λ m. m c) times
              ∙ update_self s.asl.procs.p_time c _;
        },
      )

  value : sub32 (s.mem k) 1 ≡ minus (suc (length q))
  value = rw hm (minus-sub32 (length q) (waiting-length xs d k q ys inv.asl))

  -- SYS7 of a running process that is in no queue, with a pcb ready, a time scale, all queues well-formed and
  -- apart, and the value of the semaphore of the clock minus the number of those that wait: the caller waits
  -- for the clock behind the others, soft-blocked, with its state behind the call saved and its time charged,
  -- and the first ready pcb runs. A descriptor is free if one is needed.
  pub wait_for_clock-waits :
      clock_sem s ≡ k
      → Stops
          (λ e s'. (e ≡ load_state (s.asl.procs.p_s r)) × SoftBlocked s r ready xs d k q ys fs s')
          (wait_for_clock s)
  unfolding wait_for_clock charge_time advance_pc save_current copy_to_pcb scheduler stck set_timer
      mk_empty_proc_q switch_to switch_state clock_sem device_sem Pcb.load Pcb.store
  wait_for_clock-waits hk =
      let (a, tp, pr, put, run, hr, some_ready, loads, after) = soft_block in
      let low = minus_negative (length q) (waiting-length xs d k q ys inv.asl) in
      simp (hk, value, low, hc, put, some_ready, run, hr, scale)
        (stops (ap load_state loads, after _ refl refl refl refl refl))

  -- SYS5 under the same conditions, for the semaphore of the device that its arguments name: the caller waits
  -- behind the others, soft-blocked, with its state behind the call saved and its time charged, and the first
  -- ready pcb runs.
  pub wait_for_device-waits :
      device_sem s (
          dev_sem_index
            ((except_state s).s_reg a1)
            ((except_state s).s_reg a2)
            ((except_state s).s_reg a3))
        ≡ k
      → Stops
          (λ e s'. (e ≡ load_state (s.asl.procs.p_s r)) × SoftBlocked s r ready xs d k q ys fs s')
          (wait_for_device s)
  unfolding wait_for_device charge_time advance_pc save_current copy_to_pcb scheduler stck set_timer
      mk_empty_proc_q switch_to switch_state device_sem Pcb.load Pcb.store
  wait_for_device-waits hk =
      let (a, tp, pr, put, run, hr, some_ready, loads, after) = soft_block in
      let low = minus_negative (length q) (waiting-length xs d k q ys inv.asl) in
      simp (hk, value, low, hc, put, some_ready, run, hr, scale)
        (stops (ap load_state loads, after _ refl refl refl refl refl))
