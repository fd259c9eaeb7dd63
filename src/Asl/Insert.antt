-- ===== src/Asl/Insert.antt =====
-- `insertBlocked` on the three branches: the semaphore has an entry, gets one, or finds none free.
use mathlib.Core.Path.{subst}
use os_fall_2021_project.Prelude.{
  ℕ, ◌<◌, ◌≡◌, true, false, List, [], ◌∷◌, ◌++◌, arith, ◌==◌, has, in_range, ◌∙◌, has-append, ap,
}
use os_fall_2021_project.Machine.Word.{null, max_proc}
use os_fall_2021_project.Machine.Outcome.{ok, Returns, Returns-mono}
use os_fall_2021_project.Pcb.{is_pcb}
use os_fall_2021_project.Pcb.Seg.{last, last-append}
use os_fall_2021_project.Asl.{Asl, is_semd, load, traverse_asl, insert_blocked}
use os_fall_2021_project.Asl.Entries.{
  Entry, semds_of, keys_of, pcbs_of, Run-split, IsAsl, Sorted, dummy_head, dummy_tail, behind,
  ahead, semds_of-append, keys_of-append, pcbs_of-append,
}
use os_fall_2021_project.Asl.Traverse.{traverse_asl-last, spot-valid, semd-valid, is_semd_of}
use os_fall_2021_project.Asl.Around.{Spares, entry, Around}
use os_fall_2021_project.Asl.Enqueue.{Enqueued-Spares, enqueue-Enqueued, Enqueued-IsAsl}

pub Sorted-lt : (lo : ℕ) (ks : List ℕ) (k : ℕ) (ls : List ℕ) → Sorted lo (ks ++ k ∷ ls) → lo < k
Sorted-lt lo [] k ls h = h.0
Sorted-lt lo (x ∷ ks) k ls h = omega (arith, h.0, Sorted-lt x ks k ls h.2)

pub Sorted-small :
    (lo : ℕ) (ks : List ℕ) (k : ℕ) (ls : List ℕ) → Sorted lo (ks ++ k ∷ ls) → k < null
Sorted-small lo [] k ls h = h.1
Sorted-small lo (x ∷ ks) k ls h = Sorted-small x ks k ls h.2

-- In a sorted list the entries below that of `k` stand before it.
pub behind-Sorted :
    (lo : ℕ) (xs : List Entry) (d k : ℕ) (q : List ℕ) (ys : List Entry)
    → Sorted lo (keys_of (xs ++ entry d k q ∷ ys))
    → behind k (xs ++ entry d k q ∷ ys) ≡ xs
unfolding behind
behind-Sorted lo [] d k q ys h = ground arith
behind-Sorted lo (x ∷ xs) d k q ys h = ground (
  arith,
  behind-Sorted x.sem_add xs d k q ys h.2,
  Sorted-lt x.sem_add (keys_of xs) k (keys_of ys) (rw (← keys_of-append xs (entry d k q ∷ ys)) h.2),
)

pub ahead-Sorted :
    (lo : ℕ) (xs : List Entry) (d k : ℕ) (q : List ℕ) (ys : List Entry)
    → Sorted lo (keys_of (xs ++ entry d k q ∷ ys))
    → ahead k (xs ++ entry d k q ∷ ys) ≡ entry d k q ∷ ys
unfolding ahead
ahead-Sorted lo [] d k q ys h = ground arith
ahead-Sorted lo (x ∷ xs) d k q ys h = ground (
  arith,
  ahead-Sorted x.sem_add xs d k q ys h.2,
  Sorted-lt x.sem_add (keys_of xs) k (keys_of ys) (rw (← keys_of-append xs (entry d k q ∷ ys)) h.2),
)

module _ {s : Asl} (xs : List Entry) (d k : ℕ) (q : List ℕ) (ys : List Entry) {fs : List ℕ}
    (inv : IsAsl s (xs ++ entry d k q ∷ ys) fs) where
  pub IsAsl-Around : Around s xs d k q ys fs
  IsAsl-Around =
      let (before, (link, held, after)) =
        Run-split s.semds s.procs dummy_head xs (entry d k q ∷ ys) inv.run in
      record {
        head = inv.head;
        before = before;
        link = link;
        key = held.key;
        queued = held.queued;
        waits = held.waits;
        after = after;
        end =
            subst (λ b. s.semds.s_next b ≡ dummy_tail)
              (ap (last dummy_head) (semds_of-append xs (entry d k q ∷ ys))
                ∙ last-append dummy_head (semds_of xs) d (semds_of ys))
              inv.end;
        top = inv.top;
        sorted = rw (← keys_of-append xs (entry d k q ∷ ys)) inv.sorted;
        free = inv.free;
        distinct = rw (← semds_of-append xs (entry d k q ∷ ys)) inv.distinct;
        valid = rw (← semds_of-append xs (entry d k q ∷ ys)) inv.valid;
        apart = rw (← pcbs_of-append xs (entry d k q ∷ ys)) inv.apart;
      }

  pub below : k < null
  below =
      Sorted-small 0 (keys_of xs) k (keys_of ys)
        (rw (← keys_of-append xs (entry d k q ∷ ys)) inv.sorted)

  pub spot_lem :
      last dummy_head (semds_of (behind k (xs ++ entry d k q ∷ ys))) ≡ last dummy_head (semds_of xs)
  spot_lem = ap (λ l. last dummy_head (semds_of l)) (behind-Sorted 0 xs d k q ys inv.sorted)

  pub walk_lem : traverse_asl k s.semds ≡ ok (last dummy_head (semds_of xs)) s.semds
  walk_lem = traverse_asl-last inv k (omega (arith, below)) ∙ ap (λ b. ok b s.semds) spot_lem

  pub spot_ok : is_semd (last dummy_head (semds_of xs)) ≡ true
  spot_ok = subst (λ b. is_semd b ≡ true) spot_lem (spot-valid inv k)

  pub semd_ok : in_range max_proc d ≡ true
  semd_ok = semd-valid inv d (
      rw (semds_of-append xs (entry d k q ∷ ys))
        (ground (arith, has-append d (semds_of xs) (d ∷ semds_of ys))))

-- Where the list is well-formed and the semaphore has an entry, a pcb of the table that waits for nothing
-- comes behind the others on its queue, and the list stays well-formed with the other entries. Of the pcbs
-- only the links and `p_semAdd` of this one and of those of the queue change.
pub insert_blocked-entry :
    {s : Asl} (xs : List Entry) (d k : ℕ) (q : List ℕ) (ys : List Entry) {fs : List ℕ} (p : ℕ)
    → IsAsl s (xs ++ entry d k q ∷ ys) fs
    → is_pcb p ≡ true
    → has p (pcbs_of (xs ++ entry d k q ∷ ys)) ≡ false
    → Returns
        (λ full s'.
          (full ≡ false)
          × IsAsl s' (xs ++ entry d k (q ++ p ∷ []) ∷ ys) fs
          × Spares (p ∷ q) s.procs s'.procs)
        (insert_blocked k p s)
unfolding insert_blocked load
insert_blocked-entry {s} xs d k q ys {fs} p inv hp out =
    let around = IsAsl-Around xs d k q ys inv in
    let fresh : has p (pcbs_of xs ++ (q ++ pcbs_of ys)) ≡ false =
      rw (← pcbs_of-append xs (entry d k q ∷ ys)) out in
    let temp_ok = spot_ok xs d k q ys inv in
    let d_ok = is_semd_of d (semd_ok xs d k q ys inv) in
    let walk = walk_lem xs d k q ys inv in
    let link = around.link in
    let key = around.key in
    let same : (k == k) ≡ true = ground arith in
    simp (walk, temp_ok, link, d_ok, key, same)
      (Returns-mono
        (enqueue-Enqueued s (last dummy_head (semds_of xs)) d k p q temp_ok link d_ok around.queued
          hp
          (ground
            (arith, has-append p (pcbs_of xs) (q ++ pcbs_of ys), has-append p q (pcbs_of ys))))
        (λ r s' h. (h.0, Enqueued-IsAsl around h.1 fresh, Enqueued-Spares h.1)))
