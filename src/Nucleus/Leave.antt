-- ===== src/Nucleus/Leave.antt =====
-- A pcb leaves the queue it is in.
use mathlib.Core.Path.{subst, sym}
use os_fall_2021_project.Prelude.{
  ℕ, ◌≡◌, refl, true, false, List, ◌++◌, ap, ◌∙◌, arith, ◌==◌, has, has-append, has-drop_all,
  drop_all, drop_all_absent, Distinct, Distinct-apart, AllTrue-has, AllTrue-drop_all, Bool-cases,
  inl, inr,
}
use os_fall_2021_project.Machine.Word.{null, add32, sub32}
use os_fall_2021_project.Machine.Outcome.{Returns, returns, Returns-eq, ok}
use os_fall_2021_project.Pcb.{Procs, is_pcb}
use os_fall_2021_project.Pcb.Queue.{out_proc_q-drop}
use os_fall_2021_project.Asl.Entries.{Entry, pcbs_of}
use os_fall_2021_project.Asl.View.{queue_of, has-queue_of, hold}
use os_fall_2021_project.Nucleus.{Kernel}
use os_fall_2021_project.Nucleus.Exceptions.{unqueue}
use os_fall_2021_project.Nucleus.First.{FreeList-apart}
use os_fall_2021_project.Nucleus.Invariant.{IsAsl-procs}
use os_fall_2021_project.Nucleus.Unqueue.{unqueue-ready}
use os_fall_2021_project.Nucleus.Live.{IsLive}
use os_fall_2021_project.Nucleus.LeaveWait.{LeftQueue, Distinct-dropped, unqueue-entry}

module _ {s : Kernel} {ready : List ℕ} {fs free : List ℕ} (c : ℕ) where
  -- Off the ready queue.
  unqueue-ready_queue :
      (es : List Entry)
      → IsLive s ready es fs free
      → has c ready ≡ true
      → is_pcb c ≡ true
      → Returns (λ _ s'. LeftQueue s ready es c free s') (unqueue c s)
  unfolding add32 sub32
  unqueue-ready_queue es live m hc =
      let inv = live.queues in
      let ((r, tp), pr, run, (first, ring, only)) =
        Returns-eq (out_proc_q-drop ready c inv.ready_queue m) in
      let asleep = AllTrue-has (λ b. s.asl.procs.p_sem_add b == null) c ready live.unblocked m in
      let out = Distinct-apart c ready (pcbs_of es) inv.apart m in
      let sems = ap (λ (t : Procs). t.p_sem_add) only.rest in
      let step = unqueue-ready c s hc tp pr (ground arith) (run ∙ ap (λ v. ok (v, tp) pr) first) in
      rw step (
        returns (
          record {
            es' = es;
            fs' = fs;
            live = record {
              queues = record {
                ready_queue = ring;
                asl = IsAsl-procs pr inv.asl (λ b h.
                    let far : has b ready ≡ false =
                      ground (arith, Distinct-apart b ready (pcbs_of es) inv.apart) in
                    (only.next_out b far, only.prev_out b far, ap (λ f. f b) sems));
                apart =
                    subst (λ l. Distinct (drop_all c ready ++ l))
                      (drop_all_absent c (pcbs_of es) out)
                      (Distinct-dropped c ready (pcbs_of es) inv.apart);
              };
              free_list =
                  FreeList-apart ready free live.free_list
                    (λ b h. ground (arith, live.apart b h, has-append b ready (pcbs_of es))) only;
              apart = λ b h. ground (
                arith,
                live.apart b h,
                has-append b ready (pcbs_of es),
                has-append b (drop_all c ready) (pcbs_of es),
                has-drop_all b c ready,
              );
              unblocked =
                  rw sems (
                    AllTrue-drop_all (λ b. s.asl.procs.p_sem_add b == null) c ready live.unblocked);
            };
            members = sym (drop_all_absent c (pcbs_of es) out);
            queues = λ k. sym (drop_all_absent c (queue_of k es) (has-queue_of c k es out));
            values = λ k h. refl;
            soft = refl;
            count = omega arith;
            sems = λ b h. ap (λ f. f b) sems;
            procs = ground (arith, only.rest);
            rest = refl;
          },
          ap (λ (t : Procs). t.p_child) only.rest,
        ))

  -- Off the queue it is in.
  pub unqueue-queued :
      (es : List Entry)
      → IsLive s ready es fs free
      → has c (ready ++ pcbs_of es) ≡ true
      → is_pcb c ≡ true
      → Returns (λ _ s'. LeftQueue s ready es c free s') (unqueue c s)
  unqueue-queued es live m hc = elim (Bool-cases (has c ready)) [
    | inl in_ready ↦ unqueue-ready_queue es live in_ready hc
    | inr waits ↦
        let at = hold c es (ground (arith, has-append c ready (pcbs_of es))) in
        let e = at.holder in
        subst (λ l. Returns (λ _ s'. LeftQueue s ready l c free s') (unqueue c s)) (sym at.split)
          (unqueue-entry c at.before e.semd e.sem_add e.queue at.after
            (subst (λ l. IsLive s ready l fs free) at.split live) at.member hc)
  ]
