-- ===== src/Nucleus/Queues.antt =====
-- What the operations on the queues do to all queues of the nucleus.
use mathlib.Core.List.{append_assoc}
use mathlib.Core.Path.{subst}
use os_fall_2021_project.Prelude.{
  ℕ, ◌≡◌, refl, true, false, List, [], ◌∷◌, ◌++◌, arith, has, ◌∙◌, has-append, has-reverse, reverse,
  Distinct, Distinct-apart, Distinct-middle, Distinct-insert, ap, ne_of_has,
}
use os_fall_2021_project.Machine.Outcome.{ok, Returns-eq}
use os_fall_2021_project.Pcb.{Procs, is_pcb, insert_proc_q, remove_proc_q}
use os_fall_2021_project.Pcb.Ring.{IsQueue, OnlyLinks, IsQueue-valid}
use os_fall_2021_project.Pcb.Queue.{insert_proc_q-append, remove_proc_q-first}
use os_fall_2021_project.Pcb.FreeList.{IsRing-frame}
use os_fall_2021_project.Asl.{Asl, insert_blocked, remove_blocked}
use os_fall_2021_project.Asl.Entries.{Entry, pcbs_of, keys_of, pcbs_of-append, Sorted}
use os_fall_2021_project.Asl.Around.{entry, Spares}
use os_fall_2021_project.Asl.Insert.{IsAsl-Around}
use os_fall_2021_project.Asl.Wait.{
  waiting_on, free_with, pcbs_of-waiting_on, remove_blocked-waiting_on, insert_blocked-waiting_on,
}
use os_fall_2021_project.Nucleus.{Kernel}
use os_fall_2021_project.Nucleus.Invariant.{IsNucleus, IsAsl-procs}

Distinct-waiting :
    (ready xs q : List ℕ) (p : ℕ) (ys : List ℕ)
    → Distinct (ready ++ (xs ++ (q ++ ys)))
    → has p (ready ++ (xs ++ (q ++ ys))) ≡ false
    → Distinct (ready ++ (xs ++ ((q ++ p ∷ []) ++ ys)))
Distinct-waiting ready xs q p ys d out =
    let parts : ((ready ++ xs) ++ q) ++ ys ≡ ready ++ (xs ++ (q ++ ys)) =
      simp (append_assoc) refl in
    let goal : ((ready ++ xs) ++ q) ++ p ∷ ys ≡ ready ++ (xs ++ ((q ++ p ∷ []) ++ ys)) =
      simp (append_assoc) refl in
    subst Distinct goal (Distinct-insert ((ready ++ xs) ++ q) p ys (rw parts d) (rw parts out))

module _ {s : Kernel} {ready : List ℕ} where
  -- A pcb that waits is taken off its semaphore.
  pub IsNucleus-remove :
      (xs : List Entry) (d k p : ℕ) (q : List ℕ) (ys : List Entry) {fs : List ℕ}
      → IsNucleus s ready (xs ++ entry d k (p ∷ q) ∷ ys) fs
      → (a : Asl) × (remove_blocked k s.asl ≡ ok p a)
        × IsNucleus (record s { asl = a }) ready (waiting_on xs d k q ys) (free_with d q fs)
        × (has p (ready ++ pcbs_of (waiting_on xs d k q ys)) ≡ false)
        × (is_pcb p ≡ true)
        × Spares (p ∷ q) s.asl.procs a.procs
  IsNucleus-remove xs d k p q ys inv =
      let (r, a, run, (first, asl, cleared, spares)) =
        Returns-eq (remove_blocked-waiting_on xs d k p q ys inv.asl) in
      let others = pcbs_of xs ++ (p ∷ q ++ pcbs_of ys) in
      let apart : Distinct (ready ++ others) =
        rw (← pcbs_of-append xs (entry d k (p ∷ q) ∷ ys)) inv.apart in
      let cut =
        Distinct-middle (ready ++ pcbs_of xs) p (q ++ pcbs_of ys)
          (rw (append_assoc ready (pcbs_of xs) (p ∷ q ++ pcbs_of ys)) apart) in
      let far : (b : ℕ) → has b ready ≡ true → has b (p ∷ q) ≡ false = λ b m. ground (
        arith,
        Distinct-apart b ready others apart m,
        has-append b (pcbs_of xs) (p ∷ q ++ pcbs_of ys),
        has-append b q (pcbs_of ys),
      ) in
      (
        a,
        run ∙ ap (λ v. ok v a) first,
        record {
          ready_queue =
              IsRing-frame (reverse ready) inv.ready_queue
                (λ b m. spares.next_out b (far b (rw (← has-reverse b ready) m)))
                (λ b m. spares.prev_out b (far b (rw (← has-reverse b ready) m)));
          asl = asl;
          apart =
              rw
                (
                  pcbs_of-waiting_on xs d k q ys,
                  ← append_assoc ready (pcbs_of xs) (q ++ pcbs_of ys),
                )
                cut.0;
        },
        rw (pcbs_of-waiting_on xs d k q ys, ← append_assoc ready (pcbs_of xs) (q ++ pcbs_of ys))
            cut.1,
        IsQueue-valid p q (IsAsl-Around xs d k (p ∷ q) ys inv.asl).queued,
        spares,
      )

  -- A pcb that is in no queue becomes ready, behind the others.
  pub IsNucleus-ready :
      (p : ℕ) {es : List Entry} {fs : List ℕ}
      → IsNucleus s ready es fs
      → is_pcb p ≡ true
      → has p (ready ++ pcbs_of es) ≡ false
      → (pr : Procs) × (insert_proc_q s.ready_q p s.asl.procs ≡ ok p pr)
        × IsNucleus
            (record s { ready_q = p; asl = record s.asl { procs = pr } })
            (ready ++ p ∷ [])
            es
            fs
        × OnlyLinks (p ∷ ready) s.asl.procs pr
  IsNucleus-ready p {es} inv hp out =
      let (tp, pr, run, (tail, ring, only)) = Returns-eq (
        insert_proc_q-append ready p inv.ready_queue hp
          (ground (arith, has-append p ready (pcbs_of es)))) in
      (
        pr,
        run ∙ ap (λ v. ok v pr) tail,
        record {
          ready_queue = subst (λ t. IsQueue pr t (ready ++ p ∷ [])) tail ring;
          asl = IsAsl-procs pr inv.asl (λ b m.
              let far : has b (p ∷ ready) ≡ false = ground (
                arith,
                Distinct-apart b ready (pcbs_of es) inv.apart,
                has-append p ready (pcbs_of es),
                ne_of_has p b (pcbs_of es),
              ) in
              (only.next_out b far, only.prev_out b far, ap (λ r. r.p_sem_add b) only.rest));
          apart =
              rw (append_assoc ready (p ∷ []) (pcbs_of es))
                (Distinct-insert ready p (pcbs_of es) inv.apart out);
        },
        only,
      )

  -- The first ready pcb is taken off the ready queue.
  pub IsNucleus-dispatch :
      (p : ℕ) {es : List Entry} {fs : List ℕ}
      → IsNucleus s (p ∷ ready) es fs
      → (tp : ℕ) × (pr : Procs) × (remove_proc_q s.ready_q s.asl.procs ≡ ok (p, tp) pr)
        × IsNucleus (record s { ready_q = tp; asl = record s.asl { procs = pr } }) ready es fs
        × OnlyLinks (p ∷ ready) s.asl.procs pr
  IsNucleus-dispatch p {es} inv =
      let ((r, tp), pr, run, (first, ring, only)) =
        Returns-eq (remove_proc_q-first p ready inv.ready_queue) in
      (
        tp,
        pr,
        run ∙ ap (λ v. ok (v, tp) pr) first,
        record {
          ready_queue = ring;
          asl = IsAsl-procs pr inv.asl (λ b m.
              let far : has b (p ∷ ready) ≡ false =
                ground (arith, Distinct-apart b (p ∷ ready) (pcbs_of es) inv.apart) in
              (only.next_out b far, only.prev_out b far, ap (λ r. r.p_sem_add b) only.rest));
          apart = inv.apart.1;
        },
        only,
      )

  -- A pcb that is in no queue waits on a semaphore, behind the others.
  pub IsNucleus-insert :
      (xs : List Entry) (d k : ℕ) (q : List ℕ) (ys : List Entry) (fs : List ℕ) (p : ℕ)
      → IsNucleus s ready (waiting_on xs d k q ys) (free_with d q fs)
      → Sorted 0 (keys_of xs ++ k ∷ keys_of ys)
      → is_pcb p ≡ true
      → has p (ready ++ pcbs_of (waiting_on xs d k q ys)) ≡ false
      → (a : Asl) × (insert_blocked k p s.asl ≡ ok false a)
        × IsNucleus (record s { asl = a }) ready (xs ++ entry d k (q ++ p ∷ []) ∷ ys) fs
        × Spares (p ∷ q) s.asl.procs a.procs
  IsNucleus-insert xs d k q ys fs p inv sorted hp out =
      let (r, a, run, (done, asl, spares)) = Returns-eq (
        insert_blocked-waiting_on xs d k q ys fs p inv.asl sorted hp
          (ground (arith, has-append p ready (pcbs_of (waiting_on xs d k q ys))))) in
      let others = pcbs_of xs ++ (q ++ pcbs_of ys) in
      let apart : Distinct (ready ++ others) = rw (← pcbs_of-waiting_on xs d k q ys) inv.apart in
      let out' : has p (ready ++ others) ≡ false = rw (← pcbs_of-waiting_on xs d k q ys) out in
      let far : (b : ℕ) → has b ready ≡ true → has b (p ∷ q) ≡ false = λ b m. ground (
        arith,
        Distinct-apart b ready others apart m,
        has-append b (pcbs_of xs) (q ++ pcbs_of ys),
        has-append b q (pcbs_of ys),
        has-append p ready others,
        ne_of_has p b ready,
      ) in
      (
        a,
        run ∙ ap (λ v. ok v a) done,
        record {
          ready_queue =
              IsRing-frame (reverse ready) inv.ready_queue
                (λ b m. spares.next_out b (far b (rw (← has-reverse b ready) m)))
                (λ b m. spares.prev_out b (far b (rw (← has-reverse b ready) m)));
          asl = asl;
          apart =
              rw (pcbs_of-append xs (entry d k (q ++ p ∷ []) ∷ ys))
                (Distinct-waiting ready (pcbs_of xs) q p (pcbs_of ys) apart out');
        },
        spares,
      )
