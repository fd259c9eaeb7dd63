-- ===== src/Asl/InsertNew.antt =====
-- `insertBlocked` for a semaphore without an entry: it gets one, or there is none free.
use mathlib.Core.Path.{subst, sym}
use os_fall_2021_project.Prelude.{
  ℕ, ◌<◌, ◌≡◌, refl, true, false, List, [], ◌∷◌, ◌++◌, arith, ◌==◌, has, in_range, has-append,
  AllTrue-has, AllTrue-left, Distinct-left, AllTrue-out,
}
use os_fall_2021_project.Machine.Word.{null, max_proc}
use os_fall_2021_project.Machine.Outcome.{Returns, returns, Returns-mono}
use os_fall_2021_project.Pcb.{is_pcb}
use os_fall_2021_project.Pcb.Seg.{last}
use os_fall_2021_project.Asl.{Asl, is_semd, load, store, semd_alloc, insert_blocked}
use os_fall_2021_project.Asl.Entries.{
  Entry, semds_of, keys_of, pcbs_of, Run-frame, Run-split, IsAsl, dummy_head, behind, ahead,
  behind-ahead, semds_of-append, keys_of-append, pcbs_of-append,
}
use os_fall_2021_project.Asl.Traverse.{
  start_of, traverse_asl-last, spot-next, spot-valid, semd-valid, is_semd_of,
}
use os_fall_2021_project.Asl.Link.{link-Around, linked, Sorted-new}
use os_fall_2021_project.Asl.Around.{Spares, entry}
use os_fall_2021_project.Asl.Enqueue.{Enqueued-Spares, enqueue-Enqueued, Enqueued-IsAsl}

-- No entry has the key: the descriptor behind the walk has another one.
pub spot_other :
    {s : Asl} (xs ys : List Entry) {fs : List ℕ} (k : ℕ)
    → IsAsl s (xs ++ ys) fs
    → k < null
    → has k (keys_of (xs ++ ys)) ≡ false
    → is_semd (start_of ys) ≡ true × (s.semds.s_sem_add (start_of ys) == k) ≡ false
spot_other {s} xs [] k inv small out = (refl, ground (arith, inv.top))
spot_other {s} xs (y ∷ ys) k inv small out =
    let held = (Run-split s.semds s.procs dummy_head xs (y ∷ ys) inv.run).1.1 in
    (
      is_semd_of y.semd (
          semd-valid inv y.semd (
            ground (
              arith,
              semds_of-append xs (y ∷ ys),
              has-append y.semd (semds_of xs) (y.semd ∷ semds_of ys),
            ))),
      ground (
        arith,
        held.key,
        keys_of-append xs (y ∷ ys),
        has-append k (keys_of xs) (y.sem_add ∷ keys_of ys),
      ),
    )

-- The free list may be written down as empty where it is.
no_free :
    {s : Asl} {es : List Entry}
    → IsAsl s es []
    → IsAsl (record s { semds = record s.semds { semd_free_h = null } }) es []
no_free {s} {es} inv = record {
  head = inv.head;
  run =
      Run-frame s.semds (record s.semds { semd_free_h = null }) s.procs s.procs dummy_head es
        inv.run
        (
          AllTrue-out (in_range max_proc) dummy_head (semds_of es) refl
              (AllTrue-left (in_range max_proc) (semds_of es) [] inv.valid),
          Distinct-left (semds_of es) [] inv.distinct,
        )
        (λ b m ne. refl) (λ b m. (refl, refl)) (λ p m. (refl, refl, refl));
  end = inv.end;
  top = inv.top;
  sorted = inv.sorted;
  free = refl;
  distinct = inv.distinct;
  valid = inv.valid;
  apart = inv.apart;
}

-- Where the list is well-formed and a descriptor is free, a semaphore without an entry, whose address is
-- neither 0 nor that of the end of the list, gets the first free descriptor at its place in the list, for a
-- pcb of the table that waits for nothing. Of the pcbs only the links and `p_semAdd` of this one change.
pub insert_blocked-new :
    {s : Asl} (es : List Entry) (f : ℕ) (fs : List ℕ) (k p : ℕ)
    → IsAsl s es (f ∷ fs)
    → 0 < k
    → k < null
    → has k (keys_of es) ≡ false
    → is_pcb p ≡ true
    → has p (pcbs_of es) ≡ false
    → Returns
        (λ full s'.
          (full ≡ false)
          × IsAsl s' (behind k es ++ entry f k (p ∷ []) ∷ ahead k es) fs
          × Spares (p ∷ []) s.procs s'.procs)
        (insert_blocked k p s)
unfolding insert_blocked load store semd_alloc
insert_blocked-new {s} es f fs k p inv pos small other hp out =
    let xs = behind k es in
    let ys = ahead k es in
    let parts : IsAsl s (xs ++ ys) (f ∷ fs) =
      subst (λ l. IsAsl s l (f ∷ fs)) (sym (behind-ahead k es)) inv in
    let sorted = Sorted-new 0 k es inv.sorted pos small other in
    let around = link-Around s xs ys f fs k parts sorted in
    let temp = last dummy_head (semds_of xs) in
    let f_in : in_range max_proc f ≡ true =
      AllTrue-has (in_range max_proc) f (semds_of es ++ f ∷ fs) inv.valid
        (ground (arith, has-append f (semds_of es) (f ∷ fs))) in
    let temp_ok = spot-valid inv k in
    let (next_ok, next_other) = spot_other xs ys k parts small (rw (behind-ahead k es) other) in
    let walk = traverse_asl-last inv k (omega (arith, small)) in
    let link = spot-next inv k in
    let (first, rest) = inv.free in
    let fresh : has p (pcbs_of xs ++ pcbs_of ys) ≡ false =
      rw (← pcbs_of-append xs ys) (rw (behind-ahead k es) out) in
    let f_ok = is_semd_of f f_in in
    let f_zero : (f == 0) ≡ false = ground arith in
    let f_ne : (f == null) ≡ false = ground arith in
    simp (walk, temp_ok, link, next_ok, next_other, first, f_ne, f_zero, f_ok)
      (Returns-mono
        (enqueue-Enqueued (record s { semds = linked s.semds temp f (start_of ys) k }) temp f k p []
          temp_ok around.link f_ok around.queued hp refl)
        (λ r s' h. (h.0, Enqueued-IsAsl around h.1 fresh, Enqueued-Spares h.1)))

-- Without a free descriptor `insertBlocked` says so, and no entry changes.
pub insert_blocked-full :
    {s : Asl} (es : List Entry) (k p : ℕ)
    → IsAsl s es []
    → k < null
    → has k (keys_of es) ≡ false
    → Returns
        (λ full s'. (full ≡ true) × IsAsl s' es [] × (s'.procs ≡ s.procs))
        (insert_blocked k p s)
unfolding insert_blocked load store semd_alloc
insert_blocked-full {s} es k p inv small other =
    let xs = behind k es in
    let ys = ahead k es in
    let parts : IsAsl s (xs ++ ys) [] = subst (λ l. IsAsl s l []) (sym (behind-ahead k es)) inv in
    let (next_ok, next_other) = spot_other xs ys k parts small (rw (behind-ahead k es) other) in
    let walk = traverse_asl-last inv k (omega (arith, small)) in
    let link = spot-next inv k in
    let temp_ok = spot-valid inv k in
    let empty = inv.free in
    simp (walk, temp_ok, link, next_ok, next_other, empty) (returns (refl, no_free inv, refl))
