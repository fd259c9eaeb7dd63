-- ===== src/Asl/Remove.antt =====
-- `removeBlocked`: the first pcb of a semaphore, whose descriptor is freed with its last pcb.
use mathlib.Core.Path.{subst, sym}
use os_fall_2021_project.Prelude.{
  ℕ, ◌<◌, ◌≡◌, refl, true, false, ◌||◌, not, List, [], ◌∷◌, ◌++◌, arith, ◌==◌, has, Distinct,
  update, ◌∙◌, has-append, AllTrue-has, AllTrue-of_has, Distinct-right, Distinct-apart,
  Distinct-middle, ap, update_ne, update_self, reverse, ne_of_has,
}
use os_fall_2021_project.Machine.Word.{null}
use os_fall_2021_project.Machine.Outcome.{ok, Returns, returns, Returns-eq}
use os_fall_2021_project.Pcb
use os_fall_2021_project.Pcb.{Procs, is_pcb, remove_proc_q, empty_proc_q, mk_empty_proc_q}
use os_fall_2021_project.Pcb.Ring.{IsQueue, OnlyLinks, IsQueue-out, IsQueue-ne_null, IsQueue-valid}
use os_fall_2021_project.Pcb.FreeList.{IsRing-frame}
use os_fall_2021_project.Pcb.Queue.{remove_proc_q-first}
use os_fall_2021_project.Asl.{Asl, load, store, semd_dealloc, dealloc_if_empty, remove_blocked}
use os_fall_2021_project.Asl.Entries.{Entry, pcbs_of, keys_of, IsAsl, behind, ahead, behind-ahead}
use os_fall_2021_project.Asl.Traverse.{is_semd_of, traverse_asl-last, spot-next, spot-valid}
use os_fall_2021_project.Asl.Around.{Spares, Around, entry, Requeued, Requeued-Around, Around-IsAsl}
use os_fall_2021_project.Asl.Unlink.{unlink-IsAsl}
use os_fall_2021_project.Asl.Insert.{IsAsl-Around, walk_lem, spot_ok, semd_ok}
use os_fall_2021_project.Asl.InsertNew.{spot_other}

-- The state when the pcb `p` is out of the queue of `d`, whose tail is then `tp`.
abbrev pub dequeued : Asl → (d p tp : ℕ) → Procs → Asl
dequeued s d p tp pr = record {
  semds = record s.semds { s_proc_q = update s.semds.s_proc_q d tp };
  procs = record pr { p_sem_add = update pr.p_sem_add p null };
}

pub dequeued-Spares :
    {s pr : Procs} {ps : List ℕ} (p : ℕ)
    → OnlyLinks ps s pr
    → has p ps ≡ true
    → Spares ps s (record pr { p_sem_add = update pr.p_sem_add p null })
dequeued-Spares {s} {pr} p only member = record {
  next_out = only.next_out;
  prev_out = only.prev_out;
  sem_out =
      λ b m. update_ne pr.p_sem_add p null b (ground arith) ∙ ap (λ r. r.p_sem_add b) only.rest;
  rest = ap (λ (r : Procs). record r { p_sem_add = update pr.p_sem_add p null }) only.rest;
}

pub others_far :
    {s : Asl} {xs ys : List Entry} {d k : ℕ} {ps fs : List ℕ}
    → Around s xs d k ps ys fs
    → (b : ℕ) → (has b (pcbs_of xs) || has b (pcbs_of ys)) ≡ true
    → has b ps ≡ false
others_far {s} {xs} {ys} {d} {k} {ps} around b m = ground (
  arith,
  Distinct-apart b (pcbs_of xs) (ps ++ pcbs_of ys) around.apart,
  Distinct-apart b ps (pcbs_of ys) (Distinct-right (pcbs_of xs) (ps ++ pcbs_of ys) around.apart),
  has-append b ps (pcbs_of ys),
)

module _ {s : Asl} {xs ys : List Entry} {d k tp : ℕ} {ps fs : List ℕ} {pr : Procs} (p : ℕ)
    (around : Around s xs d k ps ys fs) (only : OnlyLinks ps s.procs pr)
    (member : has p ps ≡ true) where
  dequeued-Requeued : Requeued s d tp ps (dequeued s d p tp pr)
  dequeued-Requeued = record {
    semds = refl;
    next_out = only.next_out;
    prev_out = only.prev_out;
    sem_out = (dequeued-Spares p only member).sem_out;
  }

  -- It is in the middle of a list with the queue that is left.
  pub dequeued-Around :
      (q : List ℕ)
      → IsQueue pr tp q
      → ((b : ℕ) → has b q ≡ true → (has b ps ≡ true) × ((b == p) ≡ false))
      → Distinct (pcbs_of xs ++ (q ++ pcbs_of ys))
      → Around (dequeued s d p tp pr) xs d k q ys fs
  dequeued-Around q queue sub apart =
      Requeued-Around around dequeued-Requeued (others_far around) q
        (IsRing-frame (reverse q) queue (λ b m. refl) (λ b m. refl))
        (AllTrue-of_has (λ b. (dequeued s d p tp pr).procs.p_sem_add b == k) q
          (λ b m.
            let e = ap (λ r. r.p_sem_add b) only.rest in
            ground
              (arith, sub b m, e, AllTrue-has (λ b. s.procs.p_sem_add b == k) b ps around.waits)))
        apart

rest_members :
    (p : ℕ) (q : List ℕ)
    → has p q ≡ false
    → (b : ℕ) → has b q ≡ true
    → (has b (p ∷ q) ≡ true) × ((b == p) ≡ false)
rest_members p q out b m = (ground arith, ground (arith, ne_of_has p b q out m))

-- Where the list is well-formed, the first of several pcbs that wait is returned with its `p_semAdd`
-- cleared, and the entry stays with the others in order. Of the pcbs only the links and `p_semAdd` of those
-- of the queue change.
pub remove_blocked-entry :
    {s : Asl} (xs : List Entry) (d k p q : ℕ) (qs : List ℕ) (ys : List Entry) {fs : List ℕ}
    → IsAsl s (xs ++ entry d k (p ∷ q ∷ qs) ∷ ys) fs
    → Returns
        (λ r s'.
          (r ≡ p)
          × IsAsl s' (xs ++ entry d k (q ∷ qs) ∷ ys) fs
          × (s'.procs.p_sem_add p ≡ null)
          × Spares (p ∷ q ∷ qs) s.procs s'.procs)
        (remove_blocked k s)
unfolding remove_blocked load store Pcb.store dealloc_if_empty empty_proc_q
remove_blocked-entry {s} xs d k p q qs ys {fs} inv =
    let around = IsAsl-Around xs d k (p ∷ q ∷ qs) ys inv in
    let temp_ok = spot_ok xs d k (p ∷ q ∷ qs) ys inv in
    let d_ok = is_semd_of d (semd_ok xs d k (p ∷ q ∷ qs) ys inv) in
    let walk = walk_lem xs d k (p ∷ q ∷ qs) ys inv in
    let link = around.link in
    let key = around.key in
    let same : (k == k) ≡ true = ground arith in
    let hp = IsQueue-valid p (q ∷ qs) around.queued in
    let ((r, tp), pr, run, (first, queue, only)) =
      Returns-eq (remove_proc_q-first p (q ∷ qs) around.queued) in
    let left = IsQueue-ne_null q qs queue in
    let busy : (update s.semds.s_proc_q d tp d == null) ≡ false =
      rw (update_self s.semds.s_proc_q d tp) left in
    simp (walk, temp_ok, link, d_ok, key, same, run, first, busy, hp)
      (returns (
        refl,
        Around-IsAsl (dequeued s d p tp pr) xs d k (q ∷ qs) ys fs
            (dequeued-Around p around only (ground arith) (q ∷ qs) queue
              (rest_members p (q ∷ qs) (IsQueue-out p (q ∷ qs) around.queued))
              (Distinct-middle (pcbs_of xs) p ((q ∷ qs) ++ pcbs_of ys) around.apart).0)
            (λ e. cc),
        update_self pr.p_sem_add p null,
        dequeued-Spares p only (ground arith),
      ))

-- Where the list is well-formed, the only pcb that waits is returned with its `p_semAdd` cleared; the entry
-- goes, and its descriptor is the first free one. Of the pcbs only the links and `p_semAdd` of this one
-- change.
pub remove_blocked-last :
    {s : Asl} (xs : List Entry) (d k p : ℕ) (ys : List Entry) {fs : List ℕ}
    → IsAsl s (xs ++ entry d k (p ∷ []) ∷ ys) fs
    → Returns
        (λ r s'.
          (r ≡ p)
          × IsAsl s' (xs ++ ys) (d ∷ fs)
          × (s'.procs.p_sem_add p ≡ null)
          × Spares (p ∷ []) s.procs s'.procs)
        (remove_blocked k s)
unfolding remove_blocked load store Pcb.store dealloc_if_empty empty_proc_q semd_dealloc
    mk_empty_proc_q
remove_blocked-last {s} xs d k p ys {fs} inv =
    let around = IsAsl-Around xs d k (p ∷ []) ys inv in
    let temp_ok = spot_ok xs d k (p ∷ []) ys inv in
    let d_ok = is_semd_of d (semd_ok xs d k (p ∷ []) ys inv) in
    let walk = walk_lem xs d k (p ∷ []) ys inv in
    let link = around.link in
    let key = around.key in
    let same : (k == k) ≡ true = ground arith in
    let hp = IsQueue-valid p [] around.queued in
    let ((r, tp), pr, run, (first, queue, only)) =
      Returns-eq (remove_proc_q-first p [] around.queued) in
    let tail = queue.tail in
    let idle : (update s.semds.s_proc_q d tp d == null) ≡ true =
      rw (update_self s.semds.s_proc_q d tp, tail) refl in
    let free_test : (not (s.semds.semd_free_h == 0) || not (s.semds.semd_free_h == null)) ≡ true =
      ground arith in
    let without =
      dequeued-Around p around only (ground arith) [] queue (rest_members p [] refl)
        (Distinct-middle (pcbs_of xs) p (pcbs_of ys) around.apart).0 in
    simp (walk, temp_ok, link, d_ok, key, same, run, first, idle, free_test, hp)
      (returns (
        refl,
        unlink-IsAsl (dequeued s d p tp pr) xs d k ys fs without,
        update_self pr.p_sem_add p null,
        dequeued-Spares p only (ground arith),
      ))

-- A semaphore that nothing waits on has no pcb to give, and nothing changes.
pub remove_blocked-none :
    {s : Asl} (es : List Entry) {fs : List ℕ} (k : ℕ)
    → IsAsl s es fs
    → k < null
    → has k (keys_of es) ≡ false
    → remove_blocked k s ≡ ok null s
unfolding remove_blocked load
remove_blocked-none {s} es {fs} k inv small other =
    let parts : IsAsl s (behind k es ++ ahead k es) fs =
      subst (λ l. IsAsl s l fs) (sym (behind-ahead k es)) inv in
    let (next_ok, next_other) =
      spot_other (behind k es) (ahead k es) k parts small (rw (behind-ahead k es) other) in
    let walk = traverse_asl-last inv k (omega (arith, small)) in
    let link = spot-next inv k in
    let temp_ok = spot-valid inv k in simp (walk, temp_ok, link, next_ok, next_other) refl
