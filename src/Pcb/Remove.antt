-- ===== src/Pcb/Remove.antt =====
-- `removeProcQ` takes the pcb at the head, and `headProcQ` shows it.
use mathlib.Core.List.{append-nil}
use mathlib.Core.Path.{subst₂}
use os_fall_2021_project.Prelude.{
  ℕ, ◌≡◌, refl, true, false, List, [], ◌∷◌, ◌++◌, arith, has, ◌==◌, AllTrue-has, ne_of_has,
  has-append,
}
use os_fall_2021_project.Machine.Word.{null}
use os_fall_2021_project.Machine.Outcome.{ok, Returns, returns}
use os_fall_2021_project.Pcb.{Procs, is_pcb, remove_proc_q, head_proc_q}
use os_fall_2021_project.Pcb.Seg.{Seg-split}
use os_fall_2021_project.Pcb.Ring.{IsRing, OnlyLinks}
use os_fall_2021_project.Pcb.Cut.{cut, cut-middle, cut-OnlyLinks, next-member, prev-member}

-- The pcb that is returned, the ring that is left, and what has changed.
abbrev pub Removed : Procs → ℕ → (left all : List ℕ) → ℕ × ℕ → Procs → Type 0
Removed s p left all (q, tp') s' = (q ≡ p) × IsRing s' tp' left × OnlyLinks all s s'

remove_proc_q-one :
    (s : Procs) (x : ℕ) → is_pcb x ≡ true → s.p_prev x ≡ x → remove_proc_q x s ≡ ok (x, null) s
unfolding remove_proc_q
remove_proc_q-one s x hx e = ground arith

remove_proc_q-more :
    (s : Procs) (x p : ℕ)
    → is_pcb x ≡ true
    → s.p_prev x ≡ p
    → (p == x) ≡ false
    → is_pcb p ≡ true
    → is_pcb (s.p_prev p) ≡ true
    → is_pcb (s.p_next p) ≡ true
    → remove_proc_q x s ≡ ok (p, x) (cut s p)
unfolding remove_proc_q
remove_proc_q-more s x p hx e ne hp hv hn = ground arith

-- `removeProcQ` on a ring whose last pcb is `p`.
pub remove_proc_q-ring :
    {s : Procs} {tp : ℕ} (xs : List ℕ) (p : ℕ)
    → IsRing s tp (xs ++ p ∷ [])
    → Returns (Removed s p xs (xs ++ p ∷ [])) (remove_proc_q tp s)
remove_proc_q-ring {s} [] p r =
    rw (r.tail, remove_proc_q-one s p r.valid.0 r.links.1)
      (returns (
        refl,
        record { tail = refl; links = tt; distinct = tt; valid = tt },
        record { next_out = λ b m. refl; prev_out = λ b m. refl; rest = refl },
      ))
remove_proc_q-ring {s} {tp} (x ∷ xs) p r =
    let ring = x ∷ xs ++ p ∷ [] in
    let (front, back) = Seg-split s.p_next s.p_prev x xs p [] x r.links in
    let here : has p ring ≡ true = ground (arith, has-append p (x ∷ xs) (p ∷ [])) in
    let pcb : (b : ℕ) → has b ring ≡ true → is_pcb b ≡ true =
      λ b. AllTrue-has is_pcb b ring r.valid in
    let ne = ne_of_has x p (xs ++ p ∷ []) r.distinct.0 (ground (arith, has-append p xs (p ∷ []))) in
    rw
      (
        r.tail,
        remove_proc_q-more s x p r.valid.0 back.1 (ground arith) (pcb p here)
            (pcb (s.p_prev p) (prev-member ring p r here))
            (pcb (s.p_next p) (next-member ring p r here)),
      )
      (returns (
        refl,
        subst₂ (λ t l. IsRing (cut s p) t l) r.tail (append-nil (x ∷ xs)) (cut-middle x xs p [] r),
        cut-OnlyLinks ring p r here,
      ))

-- `headProcQ` shows the last pcb of the ring.
pub head_proc_q-ring :
    {s : Procs} {tp : ℕ} (xs : List ℕ) (p : ℕ)
    → IsRing s tp (xs ++ p ∷ [])
    → head_proc_q tp s ≡ ok p s
unfolding head_proc_q
head_proc_q-ring [] p r = ground arith
head_proc_q-ring {s} (x ∷ xs) p r =
    let (front, back) = Seg-split s.p_next s.p_prev x xs p [] x r.links in ground arith
