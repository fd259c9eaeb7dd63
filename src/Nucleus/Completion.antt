-- ===== src/Nucleus/Completion.antt =====
-- The interrupt of a device: the pcb that waits for it becomes ready with the status of the device.
use os_fall_2021_project.Prelude.{
  ℕ, ◌+◌, ◌-◌, ◌*◌, ◌≡◌, refl, true, false, List, [], ◌∷◌, ◌++◌, arith, ◌==◌, update, ap, length,
  ◌∙◌, some,
}
use os_fall_2021_project.Machine.Word.{null, add32, sub32}
use os_fall_2021_project.Machine.Types.{State, set_reg, v0}
use os_fall_2021_project.Machine.Outcome.{
  load_state, Stops, stops, Stops-mono, ◌>>◌, Returns, returns, Returns-eq,
}
use os_fall_2021_project.Pcb
use os_fall_2021_project.Pcb.{Procs, is_pcb, mk_empty_proc_q}
use os_fall_2021_project.Pcb.Ring.{IsQueue-length}
use os_fall_2021_project.Asl.Entries.{Entry}
use os_fall_2021_project.Asl.Around.{entry}
use os_fall_2021_project.Asl.Insert.{IsAsl-Around}
use os_fall_2021_project.Asl.Wait.{waiting_on, free_with}
use os_fall_2021_project.Nucleus.{Kernel, except_state, device_sem}
use os_fall_2021_project.Nucleus.Scheduler.{state_copy, switch_to, switch_state}
use os_fall_2021_project.Nucleus.Exceptions.{make_ready, save_current, copy_to_pcb}
use os_fall_2021_project.Nucleus.Interrupts.{acknowledge, signal_device, non_timer_interrupt}
use os_fall_2021_project.Nucleus.Devices.{lowest_dev, swap_1_2, dev_no_of-lowest}
use os_fall_2021_project.Nucleus.Invariant.{IsNucleus, IsNucleus-frame}
use os_fall_2021_project.Nucleus.Queues.{IsNucleus-remove, IsNucleus-ready}
use os_fall_2021_project.Nucleus.Semaphores.{minus, minus-add32, minus_nonpositive}

-- The first pcb that waits for the device is ready, behind the others, with the status in `s_v0`.
pub record Completed (s : Kernel) (ready : List ℕ) (xs : List Entry) (d k p : ℕ) (q : List ℕ)
    (ys : List Entry) (fs : List ℕ) (status : ℕ) (s' : Kernel) : Type 0 where
  pub queues : IsNucleus s' (ready ++ p ∷ []) (waiting_on xs d k q ys) (free_with d q fs)
  pub value : s'.mem ≡ update s.mem k (minus (length q))
  pub count : s'.soft_block_count ≡ sub32 s.soft_block_count 1
  pub result : s'.asl.procs.p_s ≡ update s.asl.procs.p_s p (set_reg (s.asl.procs.p_s p) v0 status)
  pub rest : s' ≡ record s {
    asl = s'.asl;
    ready_q = s'.ready_q;
    mem = s'.mem;
    soft_block_count = s'.soft_block_count;
  }

pub signal_device-wakes :
    (s : Kernel) (ready : List ℕ) (xs : List Entry) (d k p : ℕ) (q : List ℕ) (ys : List Entry)
    (fs : List ℕ) (status i : ℕ)
    → IsNucleus s ready (xs ++ entry d k (p ∷ q) ∷ ys) fs
    → device_sem s i ≡ k
    → s.mem k ≡ minus (length (p ∷ q))
    → Returns (λ _ s'. Completed s ready xs d k p q ys fs status s') (signal_device status i s)
unfolding signal_device make_ready mk_empty_proc_q Pcb.load Pcb.store
signal_device-wakes s ready xs d k p q ys fs status i inv hk hm =
    let (a, taken, inv', out, hp, spares) = IsNucleus-remove xs d k p q ys inv in
    let states : a.procs.p_s ≡ s.asl.procs.p_s = ap (λ t. t.p_s) spares.rest in
    let s1 : Kernel = record s {
      asl = record a {
        procs = record a.procs { p_s = update a.procs.p_s p (set_reg (a.procs.p_s p) v0 status) };
      };
    } in
    let (pr, put, inv2, only) =
      IsNucleus-ready {s = s1} p (IsNucleus-frame _ s1 inv' refl refl (λ b. (refl, refl, refl))) hp
        out in
    let some_p : (p == null) ≡ false = ground arith in
    let count = IsQueue-length (p ∷ q) (IsAsl-Around xs d k (p ∷ q) ys inv.asl).queued in
    let value : add32 (s.mem k) 1 ≡ minus (length q) =
      rw hm (minus-add32 (length q) (omega (arith, count))) in
    let low = minus_nonpositive (length q) (omega (arith, count)) in
    simp (hk, value, low, taken, some_p, hp, put)
      (returns (record {
        queues = IsNucleus-frame _ _ inv2 refl refl (λ b. (refl, refl, refl));
        value = refl;
        count = refl;
        result = ap (λ t. t.p_s) only.rest ∙ ap (λ m. update m p (set_reg (m p) v0 status)) states;
        rest = refl;
      }))

-- The states of the pcbs `m` with that of the running process `c` as the exception left it.
abbrev pub resumed : Kernel → ℕ → (ℕ → State) → ℕ → State
resumed s c m = update m c (state_copy (except_state s) (m c))

-- The process that runs goes on.
resume :
    (s : Kernel)
    → is_pcb s.current_proc ≡ true
    → Stops
        (λ e s'.
          (e ≡ load_state (s'.asl.procs.p_s s.current_proc))
          × (s' ≡ record s {
            asl = record s.asl {
              procs = record s.asl.procs { p_s = resumed s s.current_proc s.asl.procs.p_s };
            };
          }))
        ((save_current >> switch_to {A = Unit {0}} s.current_proc) s)
unfolding save_current copy_to_pcb switch_to switch_state Pcb.load Pcb.store
resume s hc = simp hc (stops (refl, refl))

-- The process that ran before the device was served goes on.
resume_after :
    (s t : Kernel) (ready : List ℕ) (xs : List Entry) (d k p : ℕ) (q : List ℕ) (ys : List Entry)
    (fs : List ℕ) (status : ℕ)
    → Completed s ready xs d k p q ys fs status t
    → is_pcb s.current_proc ≡ true
    → Stops
        (λ e s'.
          (e ≡ load_state (s'.asl.procs.p_s s.current_proc))
          × (s'.current_proc ≡ s.current_proc)
          × IsNucleus s' (ready ++ p ∷ []) (waiting_on xs d k q ys) (free_with d q fs)
          × (s'.mem ≡ update s.mem k (minus (length q)))
          × (s'.soft_block_count ≡ sub32 s.soft_block_count 1)
          × (s'.asl.procs.p_s
              ≡ resumed s s.current_proc
                  (update s.asl.procs.p_s p (set_reg (s.asl.procs.p_s p) v0 status)))
          × (s'.hw.dev_reg ≡ s.hw.dev_reg))
        ((save_current >> switch_to {A = Unit {0}} t.current_proc) t)
resume_after s t ready xs d k p q ys fs status done hc =
    let c_stays : t.current_proc ≡ s.current_proc = ap (λ u. u.current_proc) done.rest in
    Stops-mono (resume t (rw c_stays hc)) λ e s' (loads, same). (
      loads ∙ ap (λ b. load_state (s'.asl.procs.p_s b)) c_stays,
      ap (λ v. v.current_proc) same ∙ c_stays,
      IsNucleus-frame t s' done.queues (ap (λ v. v.ready_q) same) (ap (λ v. v.asl.semds) same) (λ b.
          (
            ap (λ v. v.asl.procs.p_next b) same,
            ap (λ v. v.asl.procs.p_prev b) same,
            ap (λ v. v.asl.procs.p_sem_add b) same,
          )),
      ap (λ v. v.mem) same ∙ done.value,
      ap (λ v. v.soft_block_count) same ∙ done.count,
      ap (λ v. v.asl.procs.p_s) same
          ∙ ap (λ (v : Kernel). resumed v v.current_proc t.asl.procs.p_s) done.rest
          ∙ ap (resumed s s.current_proc) done.result,
      ap (λ v. v.hw.dev_reg) same ∙ ap (λ v. v.hw.dev_reg) done.rest,
    )

-- An interrupt on a line that is not that of the terminals, while a process runs, with all queues well-formed
-- and apart: the device that is served is the lowest that interrupts on the line, but with the devices 1 and 2
-- exchanged. Where pcbs wait for it and the value of its semaphore is minus their number, it is acknowledged, the first of these pcbs is ready behind the others with the status of
-- the device in `s_v0`, the value is minus the number of those left, one less is soft-blocked, and the
-- process that ran goes on.
pub non_timer_interrupt-completes :
    (s : Kernel) (ready : List ℕ) (xs : List Entry) (d k p : ℕ) (q : List ℕ) (ys : List Entry)
    (fs : List ℕ) (line_no n : ℕ)
    → (line_no == 7) ≡ false
    → swap_1_2 (lowest_dev 8 0 (s.hw.interrupt_dev (line_no - 3))) ≡ some n
    → IsNucleus s ready (xs ++ entry d k (p ∷ q) ∷ ys) fs
    → device_sem s ((line_no - 3) * 8 + n) ≡ k
    → s.mem k ≡ minus (length (p ∷ q))
    → is_pcb s.current_proc ≡ true
    → Stops
        (λ e s'.
          (e ≡ load_state (s'.asl.procs.p_s s.current_proc))
          × (s'.current_proc ≡ s.current_proc)
          × IsNucleus s' (ready ++ p ∷ []) (waiting_on xs d k q ys) (free_with d q fs)
          × (s'.mem ≡ update s.mem k (minus (length q)))
          × (s'.soft_block_count ≡ sub32 s.soft_block_count 1)
          × (s'.asl.procs.p_s
              ≡ resumed s s.current_proc (
                  update s.asl.procs.p_s p (
                    set_reg
                      (s.asl.procs.p_s p)
                      v0
                      (s.hw.dev_reg ((line_no - 3) * 8 + n)).d_status)))
          × (s'.hw.dev_reg
              ≡ update s.hw.dev_reg
                  ((line_no - 3) * 8 + n)
                  (record (s.hw.dev_reg ((line_no - 3) * 8 + n)) { d_command = 1 })))
        (non_timer_interrupt line_no s)
unfolding non_timer_interrupt acknowledge save_current copy_to_pcb switch_to switch_state
    mk_empty_proc_q device_sem Pcb.load Pcb.store
non_timer_interrupt-completes s ready xs d k p q ys fs line_no n line dev inv hk hm hc =
    let found = dev_no_of-lowest (s.hw.interrupt_dev (line_no - 3)) ∙ dev in
    let i = (line_no - 3) * 8 + n in
    let acked : Kernel = record s {
      hw = record s.hw {
        dev_reg = update s.hw.dev_reg i (record (s.hw.dev_reg i) { d_command = 1 });
      };
    } in
    let (u, t, run, done) = Returns-eq (
      signal_device-wakes acked ready xs d k p q ys fs (s.hw.dev_reg i).d_status i
        (IsNucleus-frame s acked inv refl refl (λ b. (refl, refl, refl))) hk hm) in
    let c_stays : t.current_proc ≡ s.current_proc = ap (λ u. u.current_proc) done.rest in
    let some_c : (t.current_proc == null) ≡ false = rw c_stays (ground arith) in
    let status = (s.hw.dev_reg i).d_status in
    simp (line, found, run, some_c) (resume_after acked t ready xs d k p q ys fs status done hc)
