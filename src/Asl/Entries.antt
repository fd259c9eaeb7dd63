-- ===== src/Asl/Entries.antt =====
-- What the active semaphore list stands for: an entry for each semaphore that pcbs wait on.
use mathlib.Core.List.{append_assoc}
use os_fall_2021_project.Prelude.{
  ℕ, ◌<◌, ◌≡◌, ◌≢◌, refl, true, ◌||◌, List, [], ◌∷◌, ◌++◌, arith, ◌==◌, ltb, if◌then◌else◌, has,
  AllTrue, Distinct, in_range, reverse, has-reverse, has-append, AllTrue-has, AllTrue-of_has, ◌∙◌,
}
use os_fall_2021_project.Machine.Word.{null, max_proc}
use os_fall_2021_project.Pcb.{Procs}
use os_fall_2021_project.Pcb.Ring.{IsQueue}
use os_fall_2021_project.Pcb.FreeList.{IsRing-frame}
use os_fall_2021_project.Pcb.Seg.{last, has-last}
use os_fall_2021_project.Asl.{Semds, Asl}

-- A descriptor, its semaphore, and the pcbs that wait, the first one first.
pub record Entry : Type 0 where
  pub semd : ℕ
  pub sem_add : ℕ
  pub queue : List ℕ

abbrev pub semds_of : List Entry → List ℕ
semds_of [] = []
semds_of (e ∷ es) = e.semd ∷ semds_of es

abbrev pub keys_of : List Entry → List ℕ
keys_of [] = []
keys_of (e ∷ es) = e.sem_add ∷ keys_of es

abbrev pub pcbs_of : List Entry → List ℕ
pcbs_of [] = []
pcbs_of (e ∷ es) = e.queue ++ pcbs_of es

-- The dummy nodes.
abbrev pub dummy_head : ℕ
dummy_head = 21

abbrev pub dummy_tail : ℕ
dummy_tail = 22

pub record Holds (sd : Semds) (pr : Procs) (e : Entry) : Type 0 where
  pub key : sd.s_sem_add e.semd ≡ e.sem_add
  pub queued : IsQueue pr (sd.s_proc_q e.semd) e.queue
  pub busy : e.queue ≢ []
  pub waits : AllTrue (λ p. pr.p_sem_add p == e.sem_add) e.queue

-- From the descriptor `a` the links lead through the entries.
abbrev pub Run : Semds → Procs → ℕ → List Entry → Type 0
Run sd pr a [] = Unit
Run sd pr a (e ∷ es) = (sd.s_next a ≡ e.semd) × Holds sd pr e × Run sd pr e.semd es

-- The addresses grow, from above `lo` to below `null`.
abbrev pub Sorted : ℕ → List ℕ → Type 0
Sorted lo [] = Unit
Sorted lo (k ∷ ks) = (lo < k) × (k < null) × Sorted k ks

-- The free list, which ends in `null` or in 0.
abbrev pub FreeChain : (next : ℕ → ℕ) → ℕ → List ℕ → Type 0
FreeChain next a [] = (a == null || a == 0) ≡ true
FreeChain next a (f ∷ fs) = (a ≡ f) × FreeChain next (next f) fs

-- The invariant of asl.c: `es` is active, `fs` is free.
pub record IsAsl (s : Asl) (es : List Entry) (fs : List ℕ) : Type 0 where
  pub head : s.semds.semd_h ≡ dummy_head
  pub run : Run s.semds s.procs dummy_head es
  pub end : s.semds.s_next (last dummy_head (semds_of es)) ≡ dummy_tail
  pub top : s.semds.s_sem_add dummy_tail ≡ null
  pub sorted : Sorted 0 (keys_of es)
  pub free : FreeChain s.semds.s_next s.semds.semd_free_h fs
  pub distinct : Distinct (semds_of es ++ fs)
  pub valid : AllTrue (in_range max_proc) (semds_of es ++ fs)
  pub apart : Distinct (pcbs_of es)

-- The entries below a semaphore address, and the others.
unfoldable pub behind : ℕ → List Entry → List Entry
behind k [] = []
behind k (e ∷ es) = if ltb e.sem_add k then e ∷ behind k es else []

unfoldable pub ahead : ℕ → List Entry → List Entry
ahead k [] = []
ahead k (e ∷ es) = if ltb e.sem_add k then ahead k es else e ∷ es

pub behind-ahead : (k : ℕ) (es : List Entry) → behind k es ++ ahead k es ≡ es
unfolding behind ahead
behind-ahead k [] = refl
behind-ahead k (e ∷ es) = ground (arith, behind-ahead k es)

pub semds_of-append : (xs ys : List Entry) → semds_of (xs ++ ys) ≡ semds_of xs ++ semds_of ys
semds_of-append [] ys = refl
semds_of-append (e ∷ xs) ys = rw (semds_of-append xs ys)

pub keys_of-append : (xs ys : List Entry) → keys_of (xs ++ ys) ≡ keys_of xs ++ keys_of ys
keys_of-append [] ys = refl
keys_of-append (e ∷ xs) ys = rw (keys_of-append xs ys)

pub pcbs_of-append : (xs ys : List Entry) → pcbs_of (xs ++ ys) ≡ pcbs_of xs ++ pcbs_of ys
pcbs_of-append [] ys = refl
pcbs_of-append (e ∷ xs) ys = rw (pcbs_of-append xs ys, append_assoc)

module _ (sd : Semds) (pr : Procs) where
  pub Run-split :
      (a : ℕ) (xs ys : List Entry)
      → Run sd pr a (xs ++ ys)
      → Run sd pr a xs × Run sd pr (last a (semds_of xs)) ys
  unfolding last
  Run-split a [] ys r = (tt, r)
  Run-split a (e ∷ xs) ys r = let rest = Run-split e.semd xs ys r.2 in ((r.0, r.1, rest.0), rest.1)

  pub Run-join :
      (a : ℕ) (xs ys : List Entry)
      → Run sd pr a xs
      → Run sd pr (last a (semds_of xs)) ys
      → Run sd pr a (xs ++ ys)
  unfolding last
  Run-join a [] ys r t = t
  Run-join a (e ∷ xs) ys r t = (r.0, r.1, Run-join e.semd xs ys r.2 t)

-- An entry survives a change that spares its descriptor and its pcbs.
pub Holds-frame :
    (sd sd' : Semds) (pr pr' : Procs) (e : Entry)
    → Holds sd pr e
    → sd'.s_sem_add e.semd ≡ sd.s_sem_add e.semd
    → sd'.s_proc_q e.semd ≡ sd.s_proc_q e.semd
    → ((p : ℕ)
        → has p e.queue ≡ true
        → (pr'.p_next p ≡ pr.p_next p)
          × (pr'.p_prev p ≡ pr.p_prev p)
          × (pr'.p_sem_add p ≡ pr.p_sem_add p))
    → Holds sd' pr' e
Holds-frame sd sd' pr pr' e h hk hq same = record {
  key = hk ∙ h.key;
  queued = rw hq (
      IsRing-frame (reverse e.queue) h.queued (λ b m. (same b (rw (← has-reverse b e.queue) m)).0)
        (λ b m. (same b (rw (← has-reverse b e.queue) m)).1));
  busy = h.busy;
  waits =
      AllTrue-of_has (λ p. pr'.p_sem_add p == e.sem_add) e.queue
        λ b m.
          rw ((same b m).2) (AllTrue-has (λ p. pr.p_sem_add p == e.sem_add) b e.queue h.waits m);
}

-- So does a run, whose last link may change.
pub Run-frame :
    (sd sd' : Semds) (pr pr' : Procs) (a : ℕ) (es : List Entry)
    → Run sd pr a es
    → Distinct (a ∷ semds_of es)
    → ((b : ℕ)
        → has b (a ∷ semds_of es) ≡ true
        → b ≢ last a (semds_of es)
        → sd'.s_next b ≡ sd.s_next b)
    → ((b : ℕ)
        → has b (semds_of es) ≡ true
        → (sd'.s_sem_add b ≡ sd.s_sem_add b) × (sd'.s_proc_q b ≡ sd.s_proc_q b))
    → ((p : ℕ)
        → has p (pcbs_of es) ≡ true
        → (pr'.p_next p ≡ pr.p_next p)
          × (pr'.p_prev p ≡ pr.p_prev p)
          × (pr'.p_sem_add p ≡ pr.p_sem_add p))
    → Run sd' pr' a es
unfolding last
Run-frame sd sd' pr pr' a [] r d hn hs hp = tt
Run-frame sd sd' pr pr' a (e ∷ es) r d hn hs hp = (
  ground (arith, hn a, has-last e.semd (semds_of es)),
  Holds-frame sd sd' pr pr' e r.1 (hs e.semd (ground arith)).0 (hs e.semd (ground arith)).1
      (λ p m. hp p (rw (has-append p e.queue (pcbs_of es), m))),
  Run-frame sd sd' pr pr' e.semd es r.2 d.1 (λ b m ne. hn b (ground arith) ne)
      (λ b m. hs b (ground arith))
      (λ p m. hp p (ground (arith, has-append p e.queue (pcbs_of es)))),
)
