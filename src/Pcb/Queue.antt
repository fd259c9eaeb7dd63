-- ===== src/Pcb/Queue.antt =====
-- A process queue of pcb.c is a first-in first-out queue: the theorems of the operations by the
-- abstract view, the list of the pcbs from the head to the tail.
use mathlib.Core.List.{reverse-append, reverse-cons}
use mathlib.Core.Path.{subst}
use os_fall_2021_project.Prelude.{
  ℕ, ◌≡◌, true, false, List, [], ◌∷◌, ◌++◌, reverse, arith, has, drop_all, has-append, sym,
  drop_all-reverse, has-reverse,
}
use os_fall_2021_project.Machine.Word.{null}
use os_fall_2021_project.Machine.Outcome.{ok, Returns, Returns-mono}
use os_fall_2021_project.Pcb.{Procs, is_pcb, insert_proc_q, remove_proc_q, out_proc_q, head_proc_q}
use os_fall_2021_project.Pcb.Ring.{IsRing, IsQueue, OnlyLinks}
use os_fall_2021_project.Pcb.Insert.{insert_proc_q-ring}
use os_fall_2021_project.Pcb.Remove.{remove_proc_q-ring, head_proc_q-ring}
use os_fall_2021_project.Pcb.Out.{out_proc_q-ring, out_proc_q-absent}

-- A result, the queue that is left, and the pcbs whose links may have changed.
abbrev pub Left : Procs → ℕ → (left all : List ℕ) → ℕ × ℕ → Procs → Type 0
Left s p left all (q, tp') s' = (q ≡ p) × IsQueue s' tp' left × OnlyLinks all s s'

-- The pcb is behind the others, and it is the tail.
abbrev pub Appended : Procs → ℕ → List ℕ → ℕ → Procs → Type 0
Appended s p q tp' s' = (tp' ≡ p) × IsQueue s' tp' (q ++ p ∷ []) × OnlyLinks (p ∷ q) s s'

-- The same for another list of the members.
pub OnlyLinks-mono :
    (xs ys : List ℕ) {s s' : Procs}
    → ((b : ℕ) → has b ys ≡ false → has b xs ≡ false)
    → OnlyLinks xs s s'
    → OnlyLinks ys s s'
OnlyLinks-mono xs ys sub o = record {
  next_out = λ b m. o.next_out b (sub b m);
  prev_out = λ b m. o.prev_out b (sub b m);
  rest = o.rest;
}

module _ {s : Procs} {tp : ℕ} where
  -- Inserting a pcb that is not in the queue puts it at the end of the queue and makes it the tail.
  pub insert_proc_q-append :
      (q : List ℕ) (p : ℕ)
      → IsQueue s tp q
      → is_pcb p ≡ true
      → has p q ≡ false
      → Returns (Appended s p q) (insert_proc_q tp p s)
  insert_proc_q-append q p r hp out =
      Returns-mono (insert_proc_q-ring (reverse q) p r hp (rw has-reverse out))
        λ tp' s' (e, ring, only). (
          e,
          subst (λ l. IsRing s' tp' l) (sym (reverse-append q (p ∷ []))) ring,
          OnlyLinks-mono (p ∷ reverse q) (p ∷ q) (λ b m. ground (arith, has-reverse b q)) only,
        )

  -- Removing from a queue that is not empty gives its first pcb and leaves the others in order.
  pub remove_proc_q-first :
      (p : ℕ) (q : List ℕ)
      → IsQueue s tp (p ∷ q)
      → Returns (Left s p q (p ∷ q)) (remove_proc_q tp s)
  remove_proc_q-first p q r =
      Returns-mono
        (remove_proc_q-ring (reverse q) p (subst (λ l. IsRing s tp l) (reverse-cons p q) r))
        λ r' s' (e, ring, only). (
          e,
          ring,
          OnlyLinks-mono (reverse q ++ p ∷ []) (p ∷ q)
              (λ b m. ground (arith, has-reverse b q, has-append b (reverse q) (p ∷ []))) only,
        )

  -- Taking a pcb of the queue out gives that pcb and leaves the others in order.
  pub out_proc_q-drop :
      (q : List ℕ) (p : ℕ)
      → IsQueue s tp q
      → has p q ≡ true
      → Returns (Left s p (drop_all p q) q) (out_proc_q tp p s)
  out_proc_q-drop q p r m =
      Returns-mono (out_proc_q-ring (reverse q) p r (rw has-reverse m)) λ r' s' (e, ring, only). (
        e,
        subst (λ l. IsRing s' r'.1 l) (drop_all-reverse p q) ring,
        OnlyLinks-mono (reverse q) q (λ b m. rw has-reverse m) only,
      )

  -- Taking out a pcb that is not in the queue gives `null` and changes nothing.
  pub out_proc_q-none :
      (q : List ℕ) (p : ℕ) → IsQueue s tp q → has p q ≡ false → out_proc_q tp p s ≡ ok (null, tp) s
  out_proc_q-none q p r m = out_proc_q-absent (reverse q) p r (rw has-reverse m)

  -- The head of a queue that is not empty is its first pcb, and nothing changes.
  pub head_proc_q-first : (p : ℕ) (q : List ℕ) → IsQueue s tp (p ∷ q) → head_proc_q tp s ≡ ok p s
  head_proc_q-first p q r =
      head_proc_q-ring (reverse q) p (subst (λ l. IsRing s tp l) (reverse-cons p q) r)
