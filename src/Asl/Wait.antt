-- ===== src/Asl/Wait.antt =====
-- One pcb more, one pcb less on a semaphore: `insertBlocked` and `removeBlocked` as inverse steps, with
-- an entry for each semaphore on which a pcb waits and none for the others.
use mathlib.Core.Path.{subst}
use os_fall_2021_project.Prelude.{
  drop_all, ℕ, ◌≤◌, ◌≡◌, refl, true, false, List, [], ◌∷◌, ◌++◌, arith, has,
}
use os_fall_2021_project.Machine.Word.{null}
use os_fall_2021_project.Machine.Outcome.{Returns, Returns-mono}
use os_fall_2021_project.Pcb.{is_pcb}
use os_fall_2021_project.Asl.{Asl, insert_blocked, remove_blocked, out_blocked}
use os_fall_2021_project.Asl.Entries.{
  Entry, keys_of, pcbs_of, pcbs_of-append, IsAsl, Sorted, behind, ahead,
}
use os_fall_2021_project.Asl.Around.{entry, Spares}
use os_fall_2021_project.Asl.Insert.{insert_blocked-entry, Sorted-lt, Sorted-small}
use os_fall_2021_project.Asl.InsertNew.{insert_blocked-new}
use os_fall_2021_project.Asl.Out.{out_blocked-entry, out_blocked-last}
use os_fall_2021_project.Asl.Remove.{remove_blocked-entry, remove_blocked-last}

-- The entries with the queue `q` on the semaphore `k`, and the free descriptors: `d` is one of them
-- where no pcb waits.
abbrev pub waiting_on : List Entry → (d k : ℕ) → List ℕ → List Entry → List Entry
waiting_on xs d k [] ys = xs ++ ys
waiting_on xs d k (p ∷ q) ys = xs ++ entry d k (p ∷ q) ∷ ys

abbrev pub free_with : (d : ℕ) → List ℕ → List ℕ → List ℕ
free_with d [] fs = d ∷ fs
free_with d (p ∷ q) fs = fs

pub pcbs_of-waiting_on :
    (xs : List Entry) (d k : ℕ) (q : List ℕ) (ys : List Entry)
    → pcbs_of (waiting_on xs d k q ys) ≡ pcbs_of xs ++ (q ++ pcbs_of ys)
pcbs_of-waiting_on xs d k [] ys = pcbs_of-append xs ys
pcbs_of-waiting_on xs d k (p ∷ q) ys = pcbs_of-append xs (entry d k (p ∷ q) ∷ ys)

-- Where the list is well-formed, the first pcb that waits on a semaphore is returned with its `p_semAdd`
-- cleared, and the others stay in order; with the last one the entry goes, and its descriptor is the first
-- free one. Of the pcbs only the links and `p_semAdd` of those of the queue change.
pub remove_blocked-waiting_on :
    {s : Asl} (xs : List Entry) (d k p : ℕ) (q : List ℕ) (ys : List Entry) {fs : List ℕ}
    → IsAsl s (xs ++ entry d k (p ∷ q) ∷ ys) fs
    → Returns
        (λ r s'.
          (r ≡ p)
          × IsAsl s' (waiting_on xs d k q ys) (free_with d q fs)
          × (s'.procs.p_sem_add p ≡ null)
          × Spares (p ∷ q) s.procs s'.procs)
        (remove_blocked k s)
remove_blocked-waiting_on xs d k p [] ys inv = remove_blocked-last xs d k p ys inv
remove_blocked-waiting_on xs d k p (q ∷ qs) ys inv = remove_blocked-entry xs d k p q qs ys inv

-- A key between those of `xs` and those of `ys` is none of them, and divides the list there.
between-behind :
    (lo : ℕ) (xs ys : List Entry) (k : ℕ)
    → Sorted lo (keys_of xs ++ k ∷ keys_of ys)
    → behind k (xs ++ ys) ≡ xs
unfolding behind
between-behind lo [] [] k h = refl
between-behind lo [] (y ∷ ys) k h = ground arith
between-behind lo (x ∷ xs) ys k h = ground (
  arith,
  between-behind x.sem_add xs ys k h.2,
  Sorted-lt x.sem_add (keys_of xs) k (keys_of ys) h.2,
)

between-ahead :
    (lo : ℕ) (xs ys : List Entry) (k : ℕ)
    → Sorted lo (keys_of xs ++ k ∷ keys_of ys)
    → ahead k (xs ++ ys) ≡ ys
unfolding ahead
between-ahead lo [] [] k h = refl
between-ahead lo [] (y ∷ ys) k h = ground arith
between-ahead lo (x ∷ xs) ys k h = ground (
  arith,
  between-ahead x.sem_add xs ys k h.2,
  Sorted-lt x.sem_add (keys_of xs) k (keys_of ys) h.2,
)

pub above : (lo : ℕ) (k : ℕ) (ks : List ℕ) → Sorted lo ks → k ≤ lo → has k ks ≡ false
above lo k [] h le = refl
above lo k (l ∷ ks) h le = ground (arith, above l k ks h.2)

pub between-new :
    (lo : ℕ) (xs ys : List Entry) (k : ℕ)
    → Sorted lo (keys_of xs ++ k ∷ keys_of ys)
    → has k (keys_of (xs ++ ys)) ≡ false
between-new lo [] ys k h = above k k (keys_of ys) h.2 (omega arith)
between-new lo (x ∷ xs) ys k h =
    ground (
      arith,
      between-new x.sem_add xs ys k h.2,
      Sorted-lt x.sem_add (keys_of xs) k (keys_of ys) h.2,
    )

-- Where the list is well-formed, a pcb of the table that waits for nothing comes behind the pcbs that wait on
-- the semaphore `k`; where none does, the semaphore gets an entry at its place in the list, whose descriptor
-- is the first free one, and one is free. The address of the semaphore is neither 0 nor that of the end of
-- the list. Of the pcbs only the links and `p_semAdd` of this one and of those of the queue change.
pub insert_blocked-waiting_on :
    {s : Asl} (xs : List Entry) (d k : ℕ) (q : List ℕ) (ys : List Entry) (fs : List ℕ) (p : ℕ)
    → IsAsl s (waiting_on xs d k q ys) (free_with d q fs)
    → Sorted 0 (keys_of xs ++ k ∷ keys_of ys)
    → is_pcb p ≡ true
    → has p (pcbs_of (waiting_on xs d k q ys)) ≡ false
    → Returns
        (λ full s'.
          (full ≡ false)
          × IsAsl s' (xs ++ entry d k (q ++ p ∷ []) ∷ ys) fs
          × Spares (p ∷ q) s.procs s'.procs)
        (insert_blocked k p s)
insert_blocked-waiting_on {s} xs d k [] ys fs p inv sorted hp out =
    let front = between-behind 0 xs ys k sorted in
    let back = between-ahead 0 xs ys k sorted in
    Returns-mono
      (insert_blocked-new (xs ++ ys) d fs k p inv (Sorted-lt 0 (keys_of xs) k (keys_of ys) sorted)
        (Sorted-small 0 (keys_of xs) k (keys_of ys) sorted) (between-new 0 xs ys k sorted) hp out)
      λ full s' (e, asl, spares). (
        e,
        subst (λ l. IsAsl s' (l ++ entry d k (p ∷ []) ∷ ys) fs) front
            (subst (λ l. IsAsl s' (behind k (xs ++ ys) ++ entry d k (p ∷ []) ∷ l) fs) back asl),
        spares,
      )
insert_blocked-waiting_on xs d k (q ∷ qs) ys fs p inv sorted hp out =
    insert_blocked-entry xs d k (q ∷ qs) ys p inv hp out

-- Where the list is well-formed and the pcb waits on the semaphore, wherever it stands in the queue, it is
-- returned with its `p_semAdd` cleared, and the others stay in order; with the last one the entry goes, and
-- its descriptor is the first free one. Of the pcbs only the links and `p_semAdd` of those of the queue
-- change.
pub out_blocked-waiting_on :
    {s : Asl} (xs : List Entry) (d k p : ℕ) (ps : List ℕ) (ys : List Entry) {fs : List ℕ}
    → IsAsl s (xs ++ entry d k ps ∷ ys) fs
    → has p ps ≡ true
    → Returns
        (λ r s'.
          (r ≡ p)
          × IsAsl s' (waiting_on xs d k (drop_all p ps) ys) (free_with d (drop_all p ps) fs)
          × (s'.procs.p_sem_add p ≡ null)
          × Spares ps s.procs s'.procs)
        (out_blocked p s)
out_blocked-waiting_on {s} xs d k p ps ys {fs} inv m = out_waiting (drop_all p ps) refl
  where
    out_waiting :
        (left : List ℕ)
        → drop_all p ps ≡ left
        → Returns
            (λ r s'.
              (r ≡ p)
              × IsAsl s' (waiting_on xs d k (drop_all p ps) ys) (free_with d (drop_all p ps) fs)
              × (s'.procs.p_sem_add p ≡ null)
              × Spares ps s.procs s'.procs)
            (out_blocked p s)
    out_waiting [] e = rw e (out_blocked-last xs d k p ps ys inv m e)
    out_waiting (q ∷ qs) e = rw e (out_blocked-entry xs d k p ps ys inv m q qs e)
