-- ===== src/Nucleus/Release.antt =====
-- The interval timer: all pcbs that wait for the clock become ready.
use mathlib.Core.List.{append_assoc}
use os_fall_2021_project.Prelude.{
  ℕ, zero, suc, ◌≤◌, ◌<◌, ◌≡◌, refl, true, false, List, [], ◌∷◌, ◌++◌, arith, ◌==◌, has, ap, length,
  ◌∙◌,
}
use os_fall_2021_project.Machine.Word.{null, sub32, max_proc}
use os_fall_2021_project.Machine.Outcome.{Returns, returns, Returns-mono}
use os_fall_2021_project.Pcb.{is_pcb, mk_empty_proc_q}
use os_fall_2021_project.Asl.Entries.{Entry, keys_of, pcbs_of, Sorted}
use os_fall_2021_project.Asl.Insert.{Sorted-small}
use os_fall_2021_project.Asl.Remove.{remove_blocked-none}
use os_fall_2021_project.Asl.Wait.{waiting_on, free_with, between-new}
use os_fall_2021_project.Nucleus.{Kernel, clock_sem, device_sem}
use os_fall_2021_project.Nucleus.Exceptions.{make_ready}
use os_fall_2021_project.Nucleus.Interrupts.{release_loop}
use os_fall_2021_project.Nucleus.Invariant.{IsNucleus, IsNucleus-frame}
use os_fall_2021_project.Nucleus.Queues.{IsNucleus-remove, IsNucleus-ready}

-- Only the queues and the count of soft-blocked processes have changed, by `n`.
pub record Released (s : Kernel) (n : ℕ) (s' : Kernel) : Type 0 where
  pub count : s'.soft_block_count ≡ sub32 s.soft_block_count n
  pub rest :
      s' ≡ record s { asl = s'.asl; ready_q = s'.ready_q; soft_block_count = s'.soft_block_count }
  pub states : s'.asl.procs.p_s ≡ s.asl.procs.p_s

sub32-sub32 : (a n : ℕ) → n < 2147483648 → sub32 (sub32 a 1) n ≡ sub32 a (suc n)
unfolding sub32
sub32-sub32 a n h = omega arith

-- One pcb more.
Released-trans :
    (s s' t : Kernel) (n : ℕ)
    → n ≤ max_proc
    → s'.asl.procs.p_s ≡ s.asl.procs.p_s
    → s'.soft_block_count ≡ sub32 s.soft_block_count 1
    → s' ≡ record s { asl = s'.asl; ready_q = s'.ready_q; soft_block_count = s'.soft_block_count }
    → Released s' (suc n) t
    → Released s (suc (suc n)) t
Released-trans s s' t n small states one same released = record {
  count = released.count ∙ (rw one (sub32-sub32 s.soft_block_count (suc n) (omega (arith, small))));
  rest =
      released.rest
      ∙ ap
          (λ (u : Kernel). record u {
            asl = t.asl;
            ready_q = t.ready_q;
            soft_block_count = t.soft_block_count;
          })
          same;
  states = released.states ∙ states;
}

module _ (xs : List Entry) (d k : ℕ) (ys : List Entry) (fs : List ℕ)
    (sorted : Sorted 0 (keys_of xs ++ k ∷ keys_of ys)) where
  pub release_loop-all :
      (fuel : ℕ) (s : Kernel) (ready : List ℕ) (p : ℕ) (q : List ℕ)
      → IsNucleus s ready (waiting_on xs d k q ys) (free_with d q fs)
      → clock_sem s ≡ k
      → is_pcb p ≡ true
      → has p (ready ++ pcbs_of (waiting_on xs d k q ys)) ≡ false
      → suc (length q) < fuel
      → length q ≤ max_proc
      → Returns
          (λ _ s'.
            IsNucleus s' (ready ++ p ∷ q) (xs ++ ys) (d ∷ fs) × Released s (suc (length q)) s')
          (release_loop fuel p s)
  unfolding release_loop make_ready mk_empty_proc_q clock_sem device_sem
  release_loop-all zero s ready p q inv hk hp out enough small = absurd (omega arith)
  release_loop-all (suc zero) s ready p q inv hk hp out enough small = absurd (omega arith)
  release_loop-all (suc (suc fuel)) s ready p [] inv hk hp out enough small =
      let (pr, put, inv', only) = IsNucleus-ready p inv hp out in
      let some_p : (p == null) ≡ false = ground arith in
      let none_left =
        remove_blocked-none (xs ++ ys) k inv'.asl
          (Sorted-small 0 (keys_of xs) k (keys_of ys) sorted) (between-new 0 xs ys k sorted) in
      simp (some_p, put, hk, none_left)
        (returns (
          IsNucleus-frame _ _ inv' refl refl (λ b. (refl, refl, refl)),
          record { count = refl; rest = refl; states = ap (λ t. t.p_s) only.rest },
        ))
  release_loop-all (suc (suc fuel)) s ready p (q ∷ qs) inv hk hp out enough small =
      let (pr, put, inv', only) = IsNucleus-ready p inv hp out in
      let some_p : (p == null) ≡ false = ground arith in
      let (a, taken, inv2, out2, hq, spares) = IsNucleus-remove xs d k q qs ys inv' in
      let s' : Kernel = record s {
        asl = a;
        ready_q = p;
        soft_block_count = sub32 s.soft_block_count 1;
      } in
      let states : a.procs.p_s ≡ s.asl.procs.p_s =
        ap (λ t. t.p_s) spares.rest ∙ ap (λ t. t.p_s) only.rest in
      let rest =
        Returns-mono
          (release_loop-all (suc fuel) s' (ready ++ p ∷ []) q qs
            (IsNucleus-frame _ s' inv2 refl refl (λ b. (refl, refl, refl))) hk hq out2
            (omega (arith, enough)) (omega (arith, small)))
          λ u t (after, released). (
            rw (← append_assoc ready (p ∷ []) (q ∷ qs)) after,
            Released-trans s s' t (length qs) (omega (arith, small)) states refl refl released,
          ) in
      simp (some_p, put, hk, taken) rest
