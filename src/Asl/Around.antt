-- ===== src/Asl/Around.antt =====
-- A semaphore in the middle of the list, and a change of its queue that spares the other entries.
use mathlib.Core.Path.{subst, subst₂, sym}
use os_fall_2021_project.Prelude.{
  ℕ, ◌≡◌, ◌≢◌, refl, true, false, ◌||◌, List, [], ◌∷◌, ◌++◌, arith, ◌==◌, has, AllTrue, Distinct,
  in_range, update, ◌∙◌, Distinct-left, Distinct-right, Distinct-apart, ap, update_ne, update_self,
  AllTrue-out, AllTrue-left,
}
use os_fall_2021_project.Machine.Word.{null, max_proc}
use os_fall_2021_project.Pcb.{Procs}
use os_fall_2021_project.Pcb.Seg.{last, last-append}
use os_fall_2021_project.Pcb.Ring.{IsQueue}
use os_fall_2021_project.Asl.{Asl}
use os_fall_2021_project.Asl.Entries.{
  Entry, semds_of, keys_of, pcbs_of, Run, Run-frame, Run-join, IsAsl, Sorted, FreeChain, dummy_head,
  dummy_tail, semds_of-append, keys_of-append, pcbs_of-append,
}

abbrev pub entry : ℕ → ℕ → List ℕ → Entry
entry d k q = record { semd = d; sem_add = k; queue = q }

-- The descriptor `d` of the semaphore `k`, with the queue `q`, between the entries `xs` and `ys`.
pub record Around (s : Asl) (xs : List Entry) (d k : ℕ) (q : List ℕ) (ys : List Entry) (fs : List ℕ)
    : Type 0 where
  pub head : s.semds.semd_h ≡ dummy_head
  pub before : Run s.semds s.procs dummy_head xs
  pub link : s.semds.s_next (last dummy_head (semds_of xs)) ≡ d
  pub key : s.semds.s_sem_add d ≡ k
  pub queued : IsQueue s.procs (s.semds.s_proc_q d) q
  pub waits : AllTrue (λ p. s.procs.p_sem_add p == k) q
  pub after : Run s.semds s.procs d ys
  pub end : s.semds.s_next (last d (semds_of ys)) ≡ dummy_tail
  pub top : s.semds.s_sem_add dummy_tail ≡ null
  pub sorted : Sorted 0 (keys_of xs ++ k ∷ keys_of ys)
  pub free : FreeChain s.semds.s_next s.semds.semd_free_h fs
  pub distinct : Distinct ((semds_of xs ++ d ∷ semds_of ys) ++ fs)
  pub valid : AllTrue (in_range max_proc) ((semds_of xs ++ d ∷ semds_of ys) ++ fs)
  pub apart : Distinct (pcbs_of xs ++ (q ++ pcbs_of ys))

-- Of the pcbs only members of `ps` have other links or another semaphore, and no other field differs.
pub record Spares (ps : List ℕ) (s s' : Procs) : Type 0 where
  pub next_out : (b : ℕ) → has b ps ≡ false → s'.p_next b ≡ s.p_next b
  pub prev_out : (b : ℕ) → has b ps ≡ false → s'.p_prev b ≡ s.p_prev b
  pub sem_out : (b : ℕ) → has b ps ≡ false → s'.p_sem_add b ≡ s.p_sem_add b
  pub rest : s' ≡ record s { p_next = s'.p_next; p_prev = s'.p_prev; p_sem_add = s'.p_sem_add }

-- The descriptor `d` gets the tail `tp`; only pcbs of `ms` change.
pub record Requeued (s : Asl) (d tp : ℕ) (ms : List ℕ) (s' : Asl) : Type 0 where
  pub semds : s'.semds ≡ record s.semds { s_proc_q = update s.semds.s_proc_q d tp }
  pub next_out : (b : ℕ) → has b ms ≡ false → s'.procs.p_next b ≡ s.procs.p_next b
  pub prev_out : (b : ℕ) → has b ms ≡ false → s'.procs.p_prev b ≡ s.procs.p_prev b
  pub sem_out : (b : ℕ) → has b ms ≡ false → s'.procs.p_sem_add b ≡ s.procs.p_sem_add b

module _ {s s' : Asl} {xs ys : List Entry} {d k tp : ℕ} {q ms fs : List ℕ}
    (around : Around s xs d k q ys fs) (re : Requeued s d tp ms s')
    (far : (b : ℕ) → (has b (pcbs_of xs) || has b (pcbs_of ys)) ≡ true → has b ms ≡ false) where
  spare :
      (b : ℕ)
      → has b ms ≡ false
      → (s'.procs.p_next b ≡ s.procs.p_next b)
        × (s'.procs.p_prev b ≡ s.procs.p_prev b)
        × (s'.procs.p_sem_add b ≡ s.procs.p_sem_add b)
  spare b m = (re.next_out b m, re.prev_out b m, re.sem_out b m)

  same_semd :
      (b : ℕ)
      → b ≢ d
      → (s'.semds.s_sem_add b ≡ s.semds.s_sem_add b) × (s'.semds.s_proc_q b ≡ s.semds.s_proc_q b)
  same_semd b ne = (
    ap (λ t. t.s_sem_add b) re.semds,
    ap (λ t. t.s_proc_q b) re.semds ∙ update_ne s.semds.s_proc_q d tp b ne,
  )

  same_next : (b : ℕ) → s'.semds.s_next b ≡ s.semds.s_next b
  same_next b = ap (λ t. t.s_next b) re.semds

  active : Distinct (semds_of xs ++ d ∷ semds_of ys)
  active = Distinct-left (semds_of xs ++ d ∷ semds_of ys) fs around.distinct

  before_kept : Run s'.semds s'.procs dummy_head xs
  before_kept =
      Run-frame s.semds s'.semds s.procs s'.procs dummy_head xs around.before
        (
          AllTrue-out (in_range max_proc) dummy_head (semds_of xs) refl (
              AllTrue-left (in_range max_proc) (semds_of xs) (d ∷ semds_of ys) (
                AllTrue-left (in_range max_proc) (semds_of xs ++ d ∷ semds_of ys) fs around.valid)),
          Distinct-left (semds_of xs) (d ∷ semds_of ys) active,
        )
        (λ b m ne. same_next b)
        (λ b m.
          same_semd b (ground (arith, Distinct-apart b (semds_of xs) (d ∷ semds_of ys) active)))
        (λ b m. spare b (far b (ground arith)))

  after_kept : Run s'.semds s'.procs d ys
  after_kept =
      let own = Distinct-right (semds_of xs) (d ∷ semds_of ys) active in
      Run-frame s.semds s'.semds s.procs s'.procs d ys around.after own (λ b m ne. same_next b)
        (λ b m. same_semd b (ground arith)) (λ b m. spare b (far b (ground arith)))

  pub Requeued-Around :
      (q' : List ℕ)
      → IsQueue s'.procs tp q'
      → AllTrue (λ b. s'.procs.p_sem_add b == k) q'
      → Distinct (pcbs_of xs ++ (q' ++ pcbs_of ys))
      → Around s' xs d k q' ys fs
  Requeued-Around q' queue waits apart = record {
    head = ap (λ t. t.semd_h) re.semds ∙ around.head;
    before = before_kept;
    link = same_next (last dummy_head (semds_of xs)) ∙ around.link;
    key = ap (λ t. t.s_sem_add d) re.semds ∙ around.key;
    queued =
        subst (λ t. IsQueue s'.procs t q')
          (sym (ap (λ t. t.s_proc_q d) re.semds ∙ update_self s.semds.s_proc_q d tp)) queue;
    waits = waits;
    after = after_kept;
    end = same_next (last d (semds_of ys)) ∙ around.end;
    top = ap (λ t. t.s_sem_add dummy_tail) re.semds ∙ around.top;
    sorted = around.sorted;
    free =
        subst₂ (λ n h. FreeChain n h fs) (sym (ap (λ t. t.s_next) re.semds))
          (sym (ap (λ t. t.semd_free_h) re.semds)) around.free;
    distinct = around.distinct;
    valid = around.valid;
    apart = apart;
  }

module _ (s : Asl) (xs : List Entry) (d k : ℕ) (q : List ℕ) (ys : List Entry) (fs : List ℕ) where
  -- With a pcb that waits it is an entry.
  pub Around-IsAsl : Around s xs d k q ys fs → q ≢ [] → IsAsl s (xs ++ entry d k q ∷ ys) fs
  Around-IsAsl around busy = record {
    head = around.head;
    run = Run-join s.semds s.procs dummy_head xs (entry d k q ∷ ys) around.before (
      around.link,
      record { key = around.key; queued = around.queued; busy = busy; waits = around.waits },
      around.after,
    );
    end =
        rw
          (
            semds_of-append xs (entry d k q ∷ ys),
            last-append dummy_head (semds_of xs) d (semds_of ys),
          )
          around.end;
    top = around.top;
    sorted = rw (keys_of-append xs (entry d k q ∷ ys)) around.sorted;
    free = around.free;
    distinct = rw (semds_of-append xs (entry d k q ∷ ys)) around.distinct;
    valid = rw (semds_of-append xs (entry d k q ∷ ys)) around.valid;
    apart = rw (pcbs_of-append xs (entry d k q ∷ ys)) around.apart;
  }
