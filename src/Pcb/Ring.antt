-- ===== src/Pcb/Ring.antt =====
-- The invariant of a process queue of pcb.c: a ring of distinct pcbs, doubly linked, known by its
-- tail. The list of a ring starts at the tail and follows `p_next`, so the head of the queue is last.
use mathlib.Core.List.{append-nil, reverse-cons}
use mathlib.Core.Path.{subst}
use os_fall_2021_project.Prelude.{
  ℕ, ◌≡◌, true, false, List, [], ◌∷◌, reverse, arith, has, Distinct, AllTrue, length,
  length-reverse, ◌≤◌, length-le_of_Distinct, ◌==◌, has-reverse, Distinct-middle, AllTrue-has,
}
use os_fall_2021_project.Machine.Word.{null, max_proc}
use os_fall_2021_project.Machine.Outcome.{ok}
use os_fall_2021_project.Pcb.{Procs, is_pcb, load, store}
use os_fall_2021_project.Pcb.Seg.{Seg}

abbrev pub Links : (next prev : ℕ → ℕ) → List ℕ → Type 0
Links next prev [] = Unit
Links next prev (x ∷ xs) = Seg next prev x xs x

abbrev pub tail_of : List ℕ → ℕ
tail_of [] = null
tail_of (x ∷ xs) = x

pub record IsRing (s : Procs) (tp : ℕ) (xs : List ℕ) : Type 0 where
  pub tail : tp ≡ tail_of xs
  pub links : Links s.p_next s.p_prev xs
  pub distinct : Distinct xs
  pub valid : AllTrue is_pcb xs

-- The abstract view: the pcbs of the queue, the head first.
abbrev pub IsQueue : Procs → ℕ → List ℕ → Type 0
IsQueue s tp q = IsRing s tp (reverse q)

-- From `s` to `s'` only links of the members of `xs` have changed.
pub record OnlyLinks (xs : List ℕ) (s s' : Procs) : Type 0 where
  pub next_out : (b : ℕ) → has b xs ≡ false → s'.p_next b ≡ s.p_next b
  pub prev_out : (b : ℕ) → has b xs ≡ false → s'.p_prev b ≡ s.p_prev b
  pub rest : s' ≡ record s { p_next = s'.p_next; p_prev = s'.p_prev }

pub load-ok :
    {A : Type 0} (field : Procs → ℕ → A) (p : ℕ) (s : Procs)
    → is_pcb p ≡ true
    → load field p s ≡ ok (field s p) s
unfolding load
load-ok field p s h = rw h

pub store-ok :
    (write : Procs → Procs) (p : ℕ) (s : Procs)
    → is_pcb p ≡ true
    → store write p s ≡ ok tt (write s)
unfolding store
store-ok write p s h = rw h

pub IsRing-length : {s : Procs} {tp : ℕ} (xs : List ℕ) → IsRing s tp xs → length xs ≤ max_proc
IsRing-length xs r = length-le_of_Distinct max_proc xs r.distinct r.valid

-- The tail of a queue that is not empty is no null pointer.
IsRing-ne_null :
    {s : Procs} {tp : ℕ} (xs : List ℕ) (p : ℕ)
    → has p xs ≡ true
    → IsRing s tp xs
    → (tp == null) ≡ false
IsRing-ne_null [] p m r = ground arith
IsRing-ne_null (x ∷ xs) p m r = ground arith

module _ {s : Procs} {tp : ℕ} (p : ℕ) (q : List ℕ) (r : IsQueue s tp (p ∷ q)) where
  pub IsQueue-ne_null : (tp == null) ≡ false
  IsQueue-ne_null = IsRing-ne_null (reverse (p ∷ q)) p (rw (has-reverse p (p ∷ q)) (ground arith)) r

  pub IsQueue-out : has p q ≡ false
  IsQueue-out =
      let d = subst Distinct (reverse-cons p q) r.distinct in
      rw (← has-reverse p q)
        (rw (append-nil {0} (reverse q)) at (Distinct-middle (reverse q) p [] d).1)

  pub IsQueue-valid : is_pcb p ≡ true
  IsQueue-valid =
      AllTrue-has is_pcb p (reverse (p ∷ q)) r.valid (rw (has-reverse p (p ∷ q)) (ground arith))

pub IsQueue-length : {s : Procs} {tp : ℕ} (q : List ℕ) → IsQueue s tp q → length q ≤ max_proc
IsQueue-length q r = omega (arith, IsRing-length (reverse q) r, length-reverse q)
