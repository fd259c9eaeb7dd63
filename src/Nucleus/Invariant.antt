-- ===== src/Nucleus/Invariant.antt =====
-- The queues of the nucleus: the ready queue and the queues of the semaphores, with no pcb in two of
-- them or twice in one.
use mathlib.Core.Path.{subst, sym}
use os_fall_2021_project.Prelude.{
  arith, has-append, has-reverse, ℕ, ◌≡◌, refl, true, List, ◌++◌, has, AllTrue-out, AllTrue-left,
  reverse, Distinct, Distinct-left, in_range,
}
use os_fall_2021_project.Machine.Word.{max_proc}
use os_fall_2021_project.Pcb.{Procs}
use os_fall_2021_project.Pcb.Ring.{IsQueue}
use os_fall_2021_project.Pcb.FreeList.{IsRing-frame}
use os_fall_2021_project.Asl.{Asl}
use os_fall_2021_project.Asl.Entries.{Entry, semds_of, pcbs_of, IsAsl, Run-frame, dummy_head}
use os_fall_2021_project.Nucleus.{Kernel}

pub record IsNucleus (s : Kernel) (ready : List ℕ) (es : List Entry) (fs : List ℕ) : Type 0 where
  pub ready_queue : IsQueue s.asl.procs s.ready_q ready
  pub asl : IsAsl s.asl es fs
  pub apart : Distinct (ready ++ pcbs_of es)

-- The semaphore list is as it was where the links of the pcbs that wait are.
pub IsAsl-procs :
    {s : Asl} (pr : Procs) {es : List Entry} {fs : List ℕ}
    → IsAsl s es fs
    → ((b : ℕ)
        → has b (pcbs_of es) ≡ true
        → (pr.p_next b ≡ s.procs.p_next b)
          × (pr.p_prev b ≡ s.procs.p_prev b)
          × (pr.p_sem_add b ≡ s.procs.p_sem_add b))
    → IsAsl (record s { procs = pr }) es fs
IsAsl-procs {s} pr {es} {fs} inv same = record {
  head = inv.head;
  run =
      Run-frame s.semds s.semds s.procs pr dummy_head es inv.run
        (
          AllTrue-out (in_range max_proc) dummy_head (semds_of es) refl
              (AllTrue-left (in_range max_proc) (semds_of es) fs inv.valid),
          Distinct-left (semds_of es) fs inv.distinct,
        )
        (λ b m ne. refl) (λ b m. (refl, refl)) same;
  end = inv.end;
  top = inv.top;
  sorted = inv.sorted;
  free = inv.free;
  distinct = inv.distinct;
  valid = inv.valid;
  apart = inv.apart;
}

-- So are all queues where the links of all pcbs in them are.
pub IsNucleus-members :
    (s s' : Kernel) {ready : List ℕ} {es : List Entry} {fs : List ℕ}
    → IsNucleus s ready es fs
    → s'.ready_q ≡ s.ready_q
    → s'.asl.semds ≡ s.asl.semds
    → ((b : ℕ)
        → has b (ready ++ pcbs_of es) ≡ true
        → (s'.asl.procs.p_next b ≡ s.asl.procs.p_next b)
          × (s'.asl.procs.p_prev b ≡ s.asl.procs.p_prev b)
          × (s'.asl.procs.p_sem_add b ≡ s.asl.procs.p_sem_add b))
    → IsNucleus s' ready es fs
IsNucleus-members s s' {ready} {es} {fs} inv hq hd same =
    let first : (b : ℕ) → has b (reverse ready) ≡ true → has b (ready ++ pcbs_of es) ≡ true =
      λ b m. ground (arith, has-append b ready (pcbs_of es), has-reverse b ready) in
    let second : (b : ℕ) → has b (pcbs_of es) ≡ true → has b (ready ++ pcbs_of es) ≡ true =
      λ b m. ground (arith, has-append b ready (pcbs_of es)) in
    record {
      ready_queue =
          subst (λ q. IsQueue s'.asl.procs q ready) (sym hq)
            (IsRing-frame (reverse ready) inv.ready_queue (λ b m. (same b (first b m)).0)
              (λ b m. (same b (first b m)).1));
      asl =
          subst (λ d. IsAsl (record s'.asl { semds = d }) es fs) (sym hd)
            (IsAsl-procs s'.asl.procs inv.asl (λ b m. same b (second b m)));
      apart = inv.apart;
    }

pub IsNucleus-frame :
    (s s' : Kernel) {ready : List ℕ} {es : List Entry} {fs : List ℕ}
    → IsNucleus s ready es fs
    → s'.ready_q ≡ s.ready_q
    → s'.asl.semds ≡ s.asl.semds
    → ((b : ℕ)
        → (s'.asl.procs.p_next b ≡ s.asl.procs.p_next b)
          × (s'.asl.procs.p_prev b ≡ s.asl.procs.p_prev b)
          × (s'.asl.procs.p_sem_add b ≡ s.asl.procs.p_sem_add b))
    → IsNucleus s' ready es fs
IsNucleus-frame s s' inv hq hd same = IsNucleus-members s s' inv hq hd (λ b m. same b)
