-- ===== src/Asl/Out.antt =====
-- `outBlocked`: a pcb that waits is taken off the queue of its semaphore, wherever it stands.
use mathlib.Core.Path.{subst}
use os_fall_2021_project.Prelude.{
  ℕ, ◌≡◌, refl, true, false, ◌||◌, not, List, [], ◌∷◌, ◌++◌, arith, ◌==◌, has, Distinct, update,
  has-reverse, AllTrue-has, update_self, reverse, drop_all, drop_all-append, drop_all_absent,
  Distinct-drop_all, has-drop_all_back,
}
use os_fall_2021_project.Machine.Word.{null}
use os_fall_2021_project.Machine.Outcome.{Returns, returns, Returns-eq}
use os_fall_2021_project.Pcb
use os_fall_2021_project.Pcb.{Procs, is_pcb, out_proc_q, empty_proc_q, mk_empty_proc_q}
use os_fall_2021_project.Pcb.Ring.{IsQueue, IsQueue-ne_null}
use os_fall_2021_project.Pcb.Queue.{out_proc_q-drop}
use os_fall_2021_project.Asl.{Asl, load, store, semd_dealloc, dealloc_if_empty, out_blocked}
use os_fall_2021_project.Asl.Entries.{Entry, pcbs_of, IsAsl}
use os_fall_2021_project.Asl.Traverse.{is_semd_of}
use os_fall_2021_project.Asl.Around.{Spares, Around, entry, Around-IsAsl}
use os_fall_2021_project.Asl.Unlink.{unlink-IsAsl}
use os_fall_2021_project.Asl.Insert.{IsAsl-Around, walk_lem, spot_ok, semd_ok}
use os_fall_2021_project.Asl.Remove.{dequeued-Spares, dequeued, dequeued-Around, others_far}

module _ {s : Asl} (xs : List Entry) (d k p : ℕ) (ps : List ℕ) (ys : List Entry) {fs : List ℕ}
    (inv : IsAsl s (xs ++ entry d k ps ∷ ys) fs) (m : has p ps ≡ true) where
  Around-p : Around s xs d k ps ys fs
  Around-p = IsAsl-Around xs d k ps ys inv

  waits_on : s.procs.p_sem_add p ≡ k
  waits_on = ground (arith, AllTrue-has (λ b. s.procs.p_sem_add b == k) p ps Around-p.waits)

  p_valid : is_pcb p ≡ true
  p_valid = AllTrue-has is_pcb p (reverse ps) Around-p.queued.valid (rw has-reverse m)

  apart_left : Distinct (pcbs_of xs ++ (drop_all p ps ++ pcbs_of ys))
  apart_left =
      let before = drop_all_absent p (pcbs_of xs) (ground (arith, others_far Around-p p)) in
      let after = drop_all_absent p (pcbs_of ys) (ground (arith, others_far Around-p p)) in
      let parts : drop_all p (pcbs_of xs ++ (ps ++ pcbs_of ys))
          ≡ pcbs_of xs ++ (drop_all p ps ++ pcbs_of ys) =
        rw (
          drop_all-append p (pcbs_of xs) (ps ++ pcbs_of ys),
          drop_all-append p ps (pcbs_of ys),
          before,
          after,
        ) in
      subst Distinct parts (Distinct-drop_all p (pcbs_of xs ++ (ps ++ pcbs_of ys)) Around-p.apart)

  -- Where others wait too the pcb is returned with its `p_semAdd` cleared and the entry stays, with them in
  -- order. Of the pcbs only the links and `p_semAdd` of those of the queue change.
  pub out_blocked-entry :
      (q : ℕ) (qs : List ℕ)
      → drop_all p ps ≡ q ∷ qs
      → Returns
          (λ r s'.
            (r ≡ p)
            × IsAsl s' (xs ++ entry d k (q ∷ qs) ∷ ys) fs
            × (s'.procs.p_sem_add p ≡ null)
            × Spares ps s.procs s'.procs)
          (out_blocked p s)
  unfolding out_blocked load store Pcb.load Pcb.store dealloc_if_empty empty_proc_q
  out_blocked-entry q qs others =
      let temp_ok = spot_ok xs d k ps ys inv in
      let d_ok = is_semd_of d (semd_ok xs d k ps ys inv) in
      let walk = walk_lem xs d k ps ys inv in
      let link = Around-p.link in
      let key = Around-p.key in
      let same : (k == k) ≡ true = ground arith in
      let ((r, tp), pr, run, (first, queue, only)) =
        Returns-eq (out_proc_q-drop ps p Around-p.queued m) in
      let left = IsQueue-ne_null q qs (subst (λ l. IsQueue pr tp l) others queue) in
      let busy : (update s.semds.s_proc_q d tp d == null) ≡ false =
        rw (update_self s.semds.s_proc_q d tp) left in
      simp (p_valid, waits_on, walk, temp_ok, link, d_ok, key, same, run, first, busy)
        (returns (
          refl,
          subst (λ l. IsAsl (dequeued s d p tp pr) (xs ++ entry d k l ∷ ys) fs) others
              (Around-IsAsl (dequeued s d p tp pr) xs d k (drop_all p ps) ys fs
                (dequeued-Around p Around-p only m (drop_all p ps) queue
                  (λ b. has-drop_all_back p b ps) apart_left)
                (λ e. cc)),
          update_self pr.p_sem_add p null,
          dequeued-Spares p only m,
        ))

  -- Where it waits alone the pcb is returned with its `p_semAdd` cleared, its entry goes, and the descriptor
  -- is the first free one. Of the pcbs only the links and `p_semAdd` of this one change.
  pub out_blocked-last :
      drop_all p ps ≡ []
      → Returns
          (λ r s'.
            (r ≡ p)
            × IsAsl s' (xs ++ ys) (d ∷ fs)
            × (s'.procs.p_sem_add p ≡ null)
            × Spares ps s.procs s'.procs)
          (out_blocked p s)
  unfolding out_blocked load store Pcb.load Pcb.store dealloc_if_empty empty_proc_q semd_dealloc
      mk_empty_proc_q
  out_blocked-last alone =
      let temp_ok = spot_ok xs d k ps ys inv in
      let d_ok = is_semd_of d (semd_ok xs d k ps ys inv) in
      let walk = walk_lem xs d k ps ys inv in
      let link = Around-p.link in
      let key = Around-p.key in
      let same : (k == k) ≡ true = ground arith in
      let ((r, tp), pr, run, (first, queue, only)) =
        Returns-eq (out_proc_q-drop ps p Around-p.queued m) in
      let empty = subst (λ l. IsQueue pr tp l) alone queue in
      let tail = empty.tail in
      let idle : (update s.semds.s_proc_q d tp d == null) ≡ true =
        rw (update_self s.semds.s_proc_q d tp, tail) refl in
      let free_test : (not (s.semds.semd_free_h == 0) || not (s.semds.semd_free_h == null)) ≡ true =
        ground arith in
      let without =
        dequeued-Around p Around-p only m [] empty (λ b h. absurd (ground arith))
          (subst (λ l. Distinct (pcbs_of xs ++ (l ++ pcbs_of ys))) alone apart_left) in
      simp (p_valid, waits_on, walk, temp_ok, link, d_ok, key, same, run, first, idle, free_test)
        (returns (
          refl,
          unlink-IsAsl (dequeued s d p tp pr) xs d k ys fs without,
          update_self pr.p_sem_add p null,
          dequeued-Spares p only m,
        ))
