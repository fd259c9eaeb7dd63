-- ===== src/Asl/Enqueue.antt =====
-- The end of `insertBlocked`: a pcb put onto the queue of a descriptor that stands in the list.
use mathlib.Core.List.{append_assoc}
use mathlib.Core.Path.{subst}
use os_fall_2021_project.Prelude.{
  ℕ, ◌≡◌, refl, true, false, ◌||◌, List, [], ◌∷◌, ◌++◌, arith, ◌==◌, has, Distinct, update, ◌∙◌,
  has-append, AllTrue-of_has, AllTrue-has, Distinct-right, Distinct-apart, reverse, ap, update_ne,
  append_ne, Distinct-insert,
}
use os_fall_2021_project.Machine.Outcome.{Returns, returns, Returns-eq}
use os_fall_2021_project.Pcb
use os_fall_2021_project.Pcb.{Procs, is_pcb, insert_proc_q}
use os_fall_2021_project.Pcb.Ring.{IsQueue}
use os_fall_2021_project.Pcb.FreeList.{IsRing-frame}
use os_fall_2021_project.Pcb.Queue.{insert_proc_q-append}
use os_fall_2021_project.Asl.{Asl, is_semd, enqueue}
use os_fall_2021_project.Asl.Around.{Spares, Around, entry, Requeued, Requeued-Around, Around-IsAsl}
use os_fall_2021_project.Asl.Entries.{Entry, pcbs_of, IsAsl}

append_middle_assoc :
    (xs q : List ℕ) (p : ℕ) (ys : List ℕ) → (xs ++ q) ++ p ∷ ys ≡ xs ++ ((q ++ p ∷ []) ++ ys)
append_middle_assoc xs q p ys = simp (append_assoc) refl

-- What `enqueue` does to the state.
pub record Enqueued (s : Asl) (d k p : ℕ) (q : List ℕ) (s' : Asl) : Type 0 where
  pub semds : s'.semds ≡ record s.semds { s_proc_q = update s.semds.s_proc_q d p }
  pub queued : IsQueue s'.procs p (q ++ p ∷ [])
  pub next_out : (b : ℕ) → has b (p ∷ q) ≡ false → s'.procs.p_next b ≡ s.procs.p_next b
  pub prev_out : (b : ℕ) → has b (p ∷ q) ≡ false → s'.procs.p_prev b ≡ s.procs.p_prev b
  pub sem_add : s'.procs.p_sem_add ≡ update s.procs.p_sem_add p k
  pub rest : s'.procs ≡ record s.procs {
    p_next = s'.procs.p_next;
    p_prev = s'.procs.p_prev;
    p_sem_add = s'.procs.p_sem_add;
  }

pub enqueue-Enqueued :
    (s : Asl) (temp d k p : ℕ) (q : List ℕ)
    → is_semd temp ≡ true
    → s.semds.s_next temp ≡ d
    → is_semd d ≡ true
    → IsQueue s.procs (s.semds.s_proc_q d) q
    → is_pcb p ≡ true
    → has p q ≡ false
    → Returns (λ r s'. (r ≡ false) × Enqueued s d k p q s') (enqueue k p temp s)
unfolding enqueue Pcb.store
enqueue-Enqueued s temp d k p q ht e hd queue hp out =
    let (tp, pr, run, (tail, ring, only)) = Returns-eq (insert_proc_q-append q p queue hp out) in
    simp (ht, e, hd, run, hp)
      (returns (
        refl,
        record {
          semds = ap (λ t. record s.semds { s_proc_q = update s.semds.s_proc_q d t }) tail;
          queued =
              subst
                (λ t. IsQueue (record pr { p_sem_add = update pr.p_sem_add p k }) t (q ++ p ∷ []))
                tail (IsRing-frame (reverse (q ++ p ∷ [])) ring (λ b m. refl) (λ b m. refl));
          next_out = only.next_out;
          prev_out = only.prev_out;
          sem_add = ap (λ r. update r.p_sem_add p k) only.rest;
          rest = ap (λ (r : Procs). record r { p_sem_add = update pr.p_sem_add p k }) only.rest;
        },
      ))

module _ {s s' : Asl} {xs ys : List Entry} {d k p : ℕ} {q fs : List ℕ}
    (around : Around s xs d k q ys fs) (en : Enqueued s d k p q s')
    (fresh : has p (pcbs_of xs ++ (q ++ pcbs_of ys)) ≡ false) where
  Enqueued-Requeued : Requeued s d p (p ∷ q) s'
  Enqueued-Requeued = record {
    semds = en.semds;
    next_out = en.next_out;
    prev_out = en.prev_out;
    sem_out = λ b m. ap (λ f. f b) en.sem_add ∙ update_ne s.procs.p_sem_add p k b (ground arith);
  }

  queue_far : (b : ℕ) → (has b (pcbs_of xs) || has b (pcbs_of ys)) ≡ true → has b (p ∷ q) ≡ false
  queue_far b m = ground (
    arith,
    Distinct-apart b (pcbs_of xs) (q ++ pcbs_of ys) around.apart,
    Distinct-apart b q (pcbs_of ys) (Distinct-right (pcbs_of xs) (q ++ pcbs_of ys) around.apart),
    has-append b q (pcbs_of ys),
    has-append p (pcbs_of xs) (q ++ pcbs_of ys),
    has-append p q (pcbs_of ys),
  )

  pub Enqueued-IsAsl : IsAsl s' (xs ++ entry d k (q ++ p ∷ []) ∷ ys) fs
  Enqueued-IsAsl =
      Around-IsAsl s' xs d k (q ++ p ∷ []) ys fs
        (Requeued-Around around Enqueued-Requeued queue_far (q ++ p ∷ []) en.queued
          (AllTrue-of_has (λ b. s'.procs.p_sem_add b == k) (q ++ p ∷ [])
            (λ b m.
              let e = ap (λ f. f b) en.sem_add in
              ground (
                arith,
                e,
                has-append b q (p ∷ []),
                AllTrue-has (λ b. s.procs.p_sem_add b == k) b q around.waits,
              )))
          (subst Distinct (append_middle_assoc (pcbs_of xs) q p (pcbs_of ys)) (
            Distinct-insert (pcbs_of xs ++ q) p (pcbs_of ys)
              (rw (append_assoc (pcbs_of xs) q (pcbs_of ys)) around.apart)
              (rw (append_assoc (pcbs_of xs) q (pcbs_of ys)) fresh))))
        (append_ne q p [])

-- What it leaves alone.
pub Enqueued-Spares :
    {s s' : Asl} {d k p : ℕ} {q : List ℕ} → Enqueued s d k p q s' → Spares (p ∷ q) s.procs s'.procs
Enqueued-Spares {s} {s'} {d} {k} {p} en = record {
  next_out = en.next_out;
  prev_out = en.prev_out;
  sem_out = λ b m. ap (λ f. f b) en.sem_add ∙ update_ne s.procs.p_sem_add p k b (ground arith);
  rest = en.rest;
}
