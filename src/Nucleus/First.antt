-- ===== src/Nucleus/First.antt =====
-- The first process of `main`: its pcb, its state, and its dispatch.
use mathlib.Core.Path.{subst, sym}
use os_fall_2021_project.Prelude.{
  reverse, has-reverse, ne_of_has, ℕ, ◌≡◌, refl, true, false, List, [], ◌∷◌, arith, ◌==◌, has,
  update, update_self, ap, ◌∙◌,
}
use os_fall_2021_project.Machine.Word.{add32}
use os_fall_2021_project.Machine.Types.{State, sp, t9}
use os_fall_2021_project.Machine.Outcome.{
  ok, load_state, Stops, stops, Returns, returns, Returns-eq,
}
use os_fall_2021_project.Pcb
use os_fall_2021_project.Pcb.{Procs, is_pcb, mk_empty_proc_q, empty_proc_q}
use os_fall_2021_project.Pcb.Ring.{OnlyLinks, IsQueue, IsQueue-valid, IsQueue-out, IsQueue-ne_null}
use os_fall_2021_project.Pcb.Free.{alloc_pcb}
use os_fall_2021_project.Pcb.FreeList.{FreeList, IsRing-frame, alloc_pcb-cons}
use os_fall_2021_project.Nucleus.{Kernel, stck, set_timer}
use os_fall_2021_project.Nucleus.Scheduler.{state_copy, switch_to, switch_state, scheduler}
use os_fall_2021_project.Nucleus.Exceptions.{copy_to_pcb, make_ready}
use os_fall_2021_project.Nucleus.Initial.{start_first}
use os_fall_2021_project.Nucleus.Invariant.{IsNucleus, IsNucleus-frame, IsAsl-procs}
use os_fall_2021_project.Nucleus.Queues.{IsNucleus-ready, IsNucleus-dispatch}

-- What the code sets of the state of the first process.
abbrev pub first_state : Kernel → State → State
first_state s garbage = record garbage {
  s_pc = s.link.test;
  s_status = 0x0800_ff04;
  s_reg = update (update garbage.s_reg sp (add32 s.hw.rambase s.hw.ramsize)) t9 s.link.test;
}

-- The free list stays where only other pcbs' links change.
pub FreeList-apart :
    (xs q : List ℕ) {s s' : Procs}
    → FreeList s q
    → ((b : ℕ) → has b q ≡ true → has b xs ≡ false)
    → OnlyLinks xs s s'
    → FreeList s' q
FreeList-apart xs q {s' = s'} free apart only =
    let far : (b : ℕ) → has b (reverse q) ≡ true → has b xs ≡ false =
      λ b m. apart b (rw (← has-reverse b q) m) in
    subst (λ h. IsQueue s' h q) (sym (ap (λ t. t.pcb_list_h) only.rest))
      (IsRing-frame (reverse q) free (λ b m. only.next_out b (far b m))
        (λ b m. only.prev_out b (far b m)))

FreeList-only :
    (p : ℕ) (q : List ℕ) {s s' : Procs}
    → FreeList s q
    → has p q ≡ false
    → OnlyLinks (p ∷ []) s s'
    → FreeList s' q
FreeList-only p q free out only =
    FreeList-apart (p ∷ []) q free (λ b m. ground (arith, ne_of_has p b q)) only

-- The first process is ready.
pub start_first-ready :
    (s : Kernel) (garbage : State) (p y : ℕ) (q : List ℕ) {fs : List ℕ}
    → IsNucleus s [] [] fs
    → FreeList s.asl.procs (p ∷ y ∷ q)
    → Returns
        (λ _ t.
          IsNucleus t (p ∷ []) [] fs
          × FreeList t.asl.procs (y ∷ q)
          × (t.asl.procs.p_s p ≡ state_copy (first_state s garbage) (s.asl.procs.p_s p))
          × (t ≡ record s {
            process_count = add32 s.process_count 1;
            ready_q = t.ready_q;
            asl = t.asl;
          }))
        (start_first garbage s)
unfolding start_first add32 copy_to_pcb make_ready Pcb.load Pcb.store
start_first-ready s garbage p y q {fs} inv free =
    let (r, p1, alloc, (first, left, cleared, hn, hv, frame)) =
      Returns-eq (alloc_pcb-cons p y q free) in
    let alloc' : alloc_pcb s.asl.procs ≡ ok p p1 = alloc ∙ ap (λ v. ok v p1) first in
    let hp = IsQueue-valid p (y ∷ q) free in
    let saved = state_copy (first_state s garbage) (p1.p_s p) in
    let s1 : Kernel = record s {
      asl = record s.asl { procs = record p1 { p_s = update p1.p_s p saved } };
    } in
    let inv1 : IsNucleus s1 [] [] fs = record {
      ready_queue = record { tail = inv.ready_queue.tail; links = tt; distinct = tt; valid = tt };
      asl = IsAsl-procs s1.asl.procs inv.asl (λ b m. absurd (ground (arith, m)));
      apart = tt;
    } in
    let (pr, put, inv2, only) = IsNucleus-ready {s = s1} p inv1 hp refl in
    let stay : p1.p_s ≡ s.asl.procs.p_s = ap (λ t. t.p_s) cleared in
    let left' : FreeList s1.asl.procs (y ∷ q) = record {
      tail = left.tail;
      links = left.links;
      distinct = left.distinct;
      valid = left.valid;
    } in
    simp (alloc', hp, put)
      (returns (
        IsNucleus-frame _ _ inv2 refl refl (λ b. (refl, refl, refl)),
        FreeList-only p (y ∷ q) left' (IsQueue-out p (y ∷ q) free) only,
        ap (λ t. t.p_s p) only.rest
            ∙ update_self p1.p_s p saved
            ∙ ap (λ m. state_copy (first_state s garbage) (m p)) stay,
        refl,
      ))

-- It runs.
pub run_first :
    (s : Kernel) (p : ℕ) (q : List ℕ) {fs : List ℕ}
    → IsNucleus s (p ∷ []) [] fs
    → FreeList s.asl.procs q
    → has p q ≡ false
    → (s.hw.timescale == 0) ≡ false
    → Stops
        (λ e s'.
          (e ≡ load_state (s.asl.procs.p_s p))
          × IsNucleus s' [] [] fs
          × FreeList s'.asl.procs q
          × (s'.current_proc ≡ p)
          × (s'.process_count ≡ s.process_count)
          × (s'.soft_block_count ≡ s.soft_block_count)
          × (s'.mem ≡ s.mem)
          × (s'.hw.interval_timer ≡ s.hw.interval_timer)
          × (s'.hw.pass_up_vector ≡ s.hw.pass_up_vector))
        (scheduler s)
unfolding scheduler stck set_timer empty_proc_q switch_to switch_state Pcb.load
run_first s p q inv free out scale =
    let (tp, pr, run, inv', only) = IsNucleus-dispatch p inv in
    let hp = IsQueue-valid p [] inv.ready_queue in
    let ready = IsQueue-ne_null p [] inv.ready_queue in
    simp (ready, run, hp, scale)
      (stops (
        ap (λ t. load_state (t.p_s p)) only.rest,
        IsNucleus-frame _ _ inv' refl refl (λ b. (refl, refl, refl)),
        FreeList-only p q free out only,
        refl,
        refl,
        refl,
        refl,
        refl,
        refl,
      ))
