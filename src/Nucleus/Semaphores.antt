-- ===== src/Nucleus/Semaphores.antt =====
-- SYS3 and SYS4 as the operations of a counting semaphore: where pcbs wait, its value is minus their
-- number.
use os_fall_2021_project.Prelude.{
  ℕ, suc, ◌≤◌, ◌≡◌, refl, true, false, List, [], ◌∷◌, ◌++◌, arith, ◌==◌, has, update, update_self,
  update_ne, ap, length, ◌∙◌,
}
use os_fall_2021_project.Machine.Word.{null, add32, sub32, is_nonpositive, is_negative, max_proc}
use os_fall_2021_project.Machine.Types.{State, set_reg, v0, a1}
use os_fall_2021_project.Machine.Outcome.{load_state, Stops, stops}
use os_fall_2021_project.Pcb
use os_fall_2021_project.Pcb.{Procs, is_pcb, mk_empty_proc_q, empty_proc_q}
use os_fall_2021_project.Pcb.Ring.{IsQueue-length, IsQueue-ne_null, IsQueue-valid}
use os_fall_2021_project.Asl.{Asl}
use os_fall_2021_project.Asl.Entries.{IsAsl, Entry, keys_of, pcbs_of, Sorted}
use os_fall_2021_project.Asl.Around.{entry}
use os_fall_2021_project.Asl.Insert.{IsAsl-Around, Sorted-lt}
use os_fall_2021_project.Asl.Wait.{waiting_on, free_with}
use os_fall_2021_project.Nucleus.{Kernel, except_state, word_len, stck, set_timer}
use os_fall_2021_project.Nucleus.Scheduler.{state_copy, switch_to, switch_state, scheduler}
use os_fall_2021_project.Nucleus.Exceptions.{passeren, verhogen}
use os_fall_2021_project.Nucleus.Invariant.{IsNucleus, IsNucleus-frame}
use os_fall_2021_project.Nucleus.Queues.{
  IsNucleus-remove, IsNucleus-ready, IsNucleus-dispatch, IsNucleus-insert,
}

-- The value of a semaphore on which `n` pcbs wait, as a word.
abbrev pub minus : ℕ → ℕ
minus n = sub32 0 n

pub minus-add32 : (n : ℕ) → n ≤ max_proc → add32 (minus (suc n)) 1 ≡ minus n
unfolding add32 sub32
minus-add32 n h = omega arith

pub minus_nonpositive : (n : ℕ) → n ≤ max_proc → is_nonpositive (minus n) ≡ true
unfolding sub32
minus_nonpositive n h = ground arith

pub minus-sub32 : (n : ℕ) → n ≤ max_proc → sub32 (minus n) 1 ≡ minus (suc n)
unfolding sub32
minus-sub32 n h = omega arith

pub minus_negative : (n : ℕ) → n ≤ max_proc → is_negative (minus (suc n)) ≡ true
unfolding sub32
minus_negative n h = ground arith

-- The state of the caller of a system call, after it.
abbrev pub behind_call : State → State
behind_call st = record st { s_pc = add32 st.s_pc word_len }

-- SYS4 of a running process on a semaphore on which pcbs wait and whose value is minus their number, with
-- all queues well-formed and apart: the first of these pcbs becomes ready behind the others, the queues stay
-- well-formed and apart, the value is minus the number of those left, and the caller goes on behind the call
-- with the address of the semaphore in `s_v0`.
pub verhogen-wakes :
    (s : Kernel) (ready : List ℕ) (xs : List Entry) (d k p : ℕ) (q : List ℕ) (ys : List Entry)
    (fs : List ℕ)
    → IsNucleus s ready (xs ++ entry d k (p ∷ q) ∷ ys) fs
    → (except_state s).s_reg a1 ≡ k
    → s.mem k ≡ minus (length (p ∷ q))
    → is_pcb s.current_proc ≡ true
    → Stops
        (λ e s'.
          (e
            ≡ load_state (
                state_copy
                  (behind_call (set_reg (except_state s) v0 k))
                  (s.asl.procs.p_s s.current_proc)))
          × (s'.current_proc ≡ s.current_proc)
          × IsNucleus s' (ready ++ p ∷ []) (waiting_on xs d k q ys) (free_with d q fs)
          × (s'.mem ≡ update s.mem k (minus (length q))))
        (verhogen s)
unfolding verhogen mk_empty_proc_q switch_to switch_state Pcb.load Pcb.store
verhogen-wakes s ready xs d k p q ys fs inv hk hm hc =
    let (a, taken, inv', out, hp, spares) = IsNucleus-remove xs d k p q ys inv in
    let (pr, put, inv'', only) = IsNucleus-ready p inv' hp out in
    let some_p : (p == null) ≡ false = ground arith in
    let count = IsQueue-length (p ∷ q) (IsAsl-Around xs d k (p ∷ q) ys inv.asl).queued in
    let around = IsAsl-Around xs d k (p ∷ q) ys inv.asl in
    let above : (k == 0) ≡ false =
      ground (arith, Sorted-lt 0 (keys_of xs) k (keys_of ys) around.sorted) in
    let value : add32 (s.mem k) 1 ≡ minus (length q) =
      rw hm (minus-add32 (length q) (omega (arith, count))) in
    let low = minus_nonpositive (length q) (omega (arith, count)) in
    let same : (k == k) ≡ true = ground arith in
    let c = s.current_proc in
    let saved = behind_call (set_reg (except_state s) v0 k) in
    let stay : pr.p_s c ≡ s.asl.procs.p_s c =
      ap (λ t. t.p_s c) only.rest ∙ ap (λ t. t.p_s c) spares.rest in
    simp (hk, above, same, value, low, taken, some_p, put, hc)
      (stops (
        ap load_state
            (update_self pr.p_s c (state_copy saved (pr.p_s c)) ∙ ap (state_copy saved) stay),
        refl,
        IsNucleus-frame _ _ inv'' refl refl (λ b. (refl, refl, refl)),
        refl,
      ))

pub waiting-length :
    {s : Asl} (xs : List Entry) (d k : ℕ) (q : List ℕ) (ys : List Entry) {fs : List ℕ}
    → IsAsl s (waiting_on xs d k q ys) fs
    → length q ≤ max_proc
waiting-length xs d k [] ys inv = omega arith
waiting-length xs d k (p ∷ q) ys inv =
    IsQueue-length (p ∷ q) (IsAsl-Around xs d k (p ∷ q) ys inv).queued

-- SYS3 of a running process that is in no queue, on a semaphore whose value is minus the number of the pcbs
-- that wait on it, 0 included, with all queues well-formed and apart, a pcb ready, and a time scale: the
-- caller waits behind the others with its state behind the call saved, the queues stay well-formed and apart,
-- the value is minus the number of those that wait then, and the first ready pcb runs. Where none waits, the
-- semaphore gets a descriptor, and one is free; its address is neither 0 nor that of the end of the list.
pub passeren-waits :
    (s : Kernel) (r : ℕ) (ready : List ℕ) (xs : List Entry) (d k : ℕ) (q : List ℕ) (ys : List Entry)
    (fs : List ℕ)
    → IsNucleus s (r ∷ ready) (waiting_on xs d k q ys) (free_with d q fs)
    → Sorted 0 (keys_of xs ++ k ∷ keys_of ys)
    → (except_state s).s_reg a1 ≡ k
    → s.mem k ≡ minus (length q)
    → is_pcb s.current_proc ≡ true
    → has s.current_proc ((r ∷ ready) ++ pcbs_of (waiting_on xs d k q ys)) ≡ false
    → (s.hw.timescale == 0) ≡ false
    → Stops
        (λ e s'.
          (e ≡ load_state (s.asl.procs.p_s r))
          × (s'.current_proc ≡ r)
          × IsNucleus s' ready (xs ++ entry d k (q ++ s.current_proc ∷ []) ∷ ys) fs
          × (s'.mem ≡ update s.mem k (minus (suc (length q))))
          × (s'.asl.procs.p_s s.current_proc
              ≡ state_copy (behind_call (except_state s)) (s.asl.procs.p_s s.current_proc)))
        (passeren s)
unfolding passeren scheduler stck set_timer empty_proc_q mk_empty_proc_q switch_to switch_state
    Pcb.load Pcb.store
passeren-waits s r ready xs d k q ys fs inv sorted hk hm hc out scale =
    let c = s.current_proc in
    let saved = state_copy (behind_call (except_state s)) (s.asl.procs.p_s c) in
    let s1 : Kernel = record s {
      asl = record s.asl { procs = record s.asl.procs { p_s = update s.asl.procs.p_s c saved } };
    } in
    let inv1 = IsNucleus-frame s s1 inv refl refl (λ b. (refl, refl, refl)) in
    let (a, put, inv2, spares) = IsNucleus-insert {s = s1} xs d k q ys fs c inv1 sorted hc out in
    let (tp, pr, run, inv3, only) = IsNucleus-dispatch r inv2 in
    let hr = IsQueue-valid r ready inv2.ready_queue in
    let some_ready = IsQueue-ne_null r ready inv2.ready_queue in
    let count = waiting-length xs d k q ys inv.asl in
    let above : (k == 0) ≡ false = ground (arith, Sorted-lt 0 (keys_of xs) k (keys_of ys) sorted) in
    let value : sub32 (s.mem k) 1 ≡ minus (suc (length q)) = rw hm (minus-sub32 (length q) count) in
    let low = minus_negative (length q) count in
    let same : (k == k) ≡ true = ground arith in
    let stay : (b : ℕ) → pr.p_s b ≡ update s.asl.procs.p_s c saved b =
      λ b. ap (λ t. t.p_s b) only.rest ∙ ap (λ t. t.p_s b) spares.rest in
    let other : (r == c) ≡ false = ground arith in
    simp (hk, above, same, value, low, hc, put, some_ready, run, hr, scale)
      (stops (
        ap load_state (stay r ∙ update_ne s.asl.procs.p_s c saved r (ground arith)),
        refl,
        IsNucleus-frame _ _ inv3 refl refl (λ b. (refl, refl, refl)),
        refl,
        stay c ∙ update_self s.asl.procs.p_s c saved,
      ))
