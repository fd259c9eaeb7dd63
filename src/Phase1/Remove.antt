-- ===== src/Phase1/Remove.antt =====
-- `removeProcQ` of phase 1 takes the first pcb of a queue.
use mathlib.Core.List.{append-nil, reverse-cons}
use mathlib.Core.Path.{subst, subst₂}
use os_fall_2021_project.Prelude.{
  ℕ, ◌≡◌, refl, true, false, List, [], ◌∷◌, ◌++◌, reverse, arith, has, ◌==◌, if◌then◌else◌,
  AllTrue-has, ne_of_has, has-append, has-reverse,
}
use os_fall_2021_project.Machine.Word.{null}
use os_fall_2021_project.Machine.Outcome.{ok, Returns, returns, Returns-mono}
use os_fall_2021_project.Pcb.{Procs, is_pcb}
use os_fall_2021_project.Pcb.Seg.{Seg-split}
use os_fall_2021_project.Pcb.Ring.{IsRing, IsQueue, OnlyLinks}
use os_fall_2021_project.Pcb.Cut.{cut, cut-middle, cut-OnlyLinks, prev-member}
use os_fall_2021_project.Pcb.Queue.{Left, OnlyLinks-mono}
use os_fall_2021_project.Phase1.Pcb.{remove_proc_q}
use os_fall_2021_project.Phase1.Turn.{turn}

remove_proc_q-cut :
    (s : Procs) (tp p : ℕ)
    → is_pcb tp ≡ true
    → is_pcb p ≡ true
    → is_pcb (s.p_next p) ≡ true
    → s.p_next tp ≡ p
    → s.p_prev p ≡ tp
    → remove_proc_q tp s ≡ ok (p, if p == tp then null else tp) (turn (cut (turn s) p))
unfolding remove_proc_q
remove_proc_q-cut s tp p ht hp hn e e' = ground arith

-- The same on a ring, whose last pcb is the head.
remove_proc_q-IsRing :
    {t : Procs} {tp : ℕ} (xs : List ℕ) (p : ℕ)
    → IsRing t tp (xs ++ p ∷ [])
    → Returns
        (λ r s'. (r.0 ≡ p) × IsRing (turn s') r.1 xs × OnlyLinks (xs ++ p ∷ []) t (turn s'))
        (remove_proc_q tp (turn t))
remove_proc_q-IsRing {t} [] p r =
    let alone : (p == p) ≡ true = ground arith in
    rw
      (
        r.tail,
        remove_proc_q-cut (turn t) p p r.valid.0 r.valid.0 (rw r.links.1 r.valid.0) r.links.1
            r.links.0,
        alone,
      )
      (returns (
        refl,
        record { tail = refl; links = tt; distinct = tt; valid = tt },
        cut-OnlyLinks (p ∷ []) p r (ground arith),
      ))
remove_proc_q-IsRing {t} {tp} (x ∷ xs) p r =
    let ring = x ∷ xs ++ p ∷ [] in
    let (front, back) = Seg-split t.p_next t.p_prev x xs p [] x r.links in
    let here : has p ring ≡ true = ground (arith, has-append p (x ∷ xs) (p ∷ [])) in
    let pcb : (b : ℕ) → has b ring ≡ true → is_pcb b ≡ true =
      λ b. AllTrue-has is_pcb b ring r.valid in
    let apart =
      ne_of_has x p (xs ++ p ∷ []) r.distinct.0 (ground (arith, has-append p xs (p ∷ []))) in
    let ne : (p == x) ≡ false = ground arith in
    rw
      (
        r.tail,
        remove_proc_q-cut (turn t) x p r.valid.0 (pcb p here)
            (pcb (t.p_prev p) (prev-member ring p r here)) back.1 back.0,
        ne,
      )
      (returns (
        refl,
        subst₂ (λ u l. IsRing (cut t p) u l) r.tail (append-nil (x ∷ xs)) (cut-middle x xs p [] r),
        cut-OnlyLinks ring p r here,
      ))

-- Removing from a queue that is not empty gives its first pcb and leaves the others in order.
pub remove_proc_q-first_turned :
    {s : Procs} {tp : ℕ} (p : ℕ) (q : List ℕ)
    → IsQueue (turn s) tp (p ∷ q)
    → Returns (λ r s'. Left (turn s) p q (p ∷ q) r (turn s')) (remove_proc_q tp s)
remove_proc_q-first_turned {s} {tp} p q r =
    Returns-mono
      (remove_proc_q-IsRing (reverse q) p (subst (λ l. IsRing (turn s) tp l) (reverse-cons p q) r))
      λ r' s' (e, ring, only). (
        e,
        ring,
        OnlyLinks-mono (reverse q ++ p ∷ []) (p ∷ q)
            (λ b m. ground (arith, has-reverse b q, has-append b (reverse q) (p ∷ []))) only,
      )
