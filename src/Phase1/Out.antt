-- ===== src/Phase1/Out.antt =====
-- `outProcQ` of phase 1: it finds every pcb but the tail.
use mathlib.Core.List.{reverse-cons, reverse-append}
use mathlib.Core.Path.{subst, sym}
use os_fall_2021_project.Prelude.{
  ℕ, zero, suc, ◌≤◌, ◌≡◌, refl, true, false, List, [], ◌∷◌, ◌++◌, reverse, arith, has, ◌==◌,
  AllTrue, length, length-reverse, AllTrue-of_has, AllTrue-has, ne_of_has, has-append, has-reverse,
  drop_all, drop_all-reverse, append_ne, ◌≢◌, ap,
}
use os_fall_2021_project.Machine.Word.{null, max_proc}
use os_fall_2021_project.Machine.Outcome.{ok, Returns, returns, Returns-mono}
use os_fall_2021_project.Pcb.{Procs, is_pcb}
use os_fall_2021_project.Pcb.Seg.{Seg, Seg-join, Seg-last, last, has-last}
use os_fall_2021_project.Pcb.Ring.{IsRing, IsQueue, OnlyLinks, IsRing-length}
use os_fall_2021_project.Pcb.Cut.{cut, cut-tail, cut-OnlyLinks, next-member, prev-member}
use os_fall_2021_project.Pcb.Out.{left_behind}
use os_fall_2021_project.Pcb.Queue.{Left, OnlyLinks-mono}
use os_fall_2021_project.Phase1.Pcb.{unlink, out_search, out_rest, out_proc_q}
use os_fall_2021_project.Phase1.Turn.{turn}

-- A segment read backwards.
Seg-reverse :
    (next prev : ℕ → ℕ) (a : ℕ) (xs : List ℕ) (z : ℕ)
    → Seg next prev a xs z
    → Seg prev next z (reverse xs) a
Seg-reverse next prev a [] z s = (s.1, s.0)
Seg-reverse next prev a (x ∷ xs) z s =
    rw (reverse-cons x xs)
      (Seg-join prev next z (reverse xs) x [] a (Seg-reverse next prev x xs z s.2) (s.1, s.0))

unlink-cut :
    (s : Procs) (p : ℕ)
    → is_pcb p ≡ true
    → is_pcb (s.p_next p) ≡ true
    → is_pcb (s.p_prev p) ≡ true
    → unlink p s ≡ ok tt (turn (cut (turn s) p))
unfolding unlink
unlink-cut s p hp hn hv = ground arith

-- The loop finds a pcb that stands before the end, if it has a round for each pcb.
out_search-found :
    (rounds : ℕ) (s : Procs) (p a : ℕ) (xs : List ℕ) (z : ℕ)
    → Seg s.p_next s.p_prev a xs z
    → AllTrue is_pcb xs
    → has p xs ≡ true
    → length xs ≤ rounds
    → unlink p s ≡ ok tt (turn (cut (turn s) p))
    → out_search rounds p (s.p_next a) s ≡ ok p (turn (cut (turn s) p))
unfolding out_search
out_search-found rounds s p a [] z links all m enough cuts = absurd (ground arith)
out_search-found zero s p a (x ∷ xs) z links all m enough cuts = absurd (omega arith)
out_search-found (suc rounds) s p a (x ∷ xs) z links all m enough cuts =
    ground (arith, out_search-found rounds s p x xs z links.2 all.1)

module _ {t : Procs} {tp : ℕ} (xs : List ℕ) (p : ℕ) (r : IsRing t tp xs) where
  pcb_in : (b : ℕ) → has b xs ≡ true → is_pcb b ≡ true
  pcb_in b = AllTrue-has is_pcb b xs r.valid

  -- It does not find a pcb that is not in the ring, and stops after its rounds.
  out_search-absent :
      (rounds a : ℕ)
      → has p xs ≡ false
      → has a xs ≡ true
      → out_search rounds p a (turn t) ≡ ok null (turn t)
  unfolding out_search
  out_search-absent zero a out m = refl
  out_search-absent (suc rounds) a out m = ground (
    arith,
    out_search-absent rounds (t.p_prev a),
    pcb_in a m,
    prev-member xs a r m,
    ne_of_has p a xs,
  )

  cut_member : has p xs ≡ true → unlink p (turn t) ≡ ok tt (turn (cut t p))
  cut_member m =
      unlink-cut (turn t) p (pcb_in p m) (pcb_in (t.p_prev p) (prev-member xs p r m))
        (pcb_in (t.p_next p) (next-member xs p r m))

reverse_ne : (q : List ℕ) → q ≢ [] → reverse q ≢ []
reverse_ne [] ne = absurd (ne refl)
reverse_ne (x ∷ q) ne = rw (reverse-cons x q) (append_ne (reverse q) x [])

module _ {t : Procs} {tp : ℕ} where
  -- A pcb behind the tail of the ring is found.
  out_proc_q-behind :
      (x : ℕ) (xs : List ℕ) (p : ℕ)
      → IsRing t tp (x ∷ xs)
      → has p xs ≡ true
      → out_proc_q tp p (turn t) ≡ ok (p, tp) (turn (cut t p))
  unfolding out_proc_q out_rest
  out_proc_q-behind x xs p r m =
      let s = turn t in
      let bound = IsRing-length (x ∷ xs) r in
      let tail : tp ≡ x = r.tail in
      let first = r.valid.0 in
      let apart = ne_of_has x p xs r.distinct.0 m in
      let loop =
        out_search-found max_proc s p x (reverse xs) x
          (Seg-reverse t.p_next t.p_prev x xs x r.links)
          (AllTrue-of_has is_pcb (reverse xs)
            (λ b h. AllTrue-has is_pcb b xs r.valid.1 (rw (← has-reverse b xs) h)))
          (rw (has-reverse p xs) m) (omega (arith, bound, length-reverse xs))
          (cut_member (x ∷ xs) p r (ground arith)) in
      let other : (x == p) ≡ false = ground arith in
      let pcb_null : (x == null) ≡ false = ground arith in
      rw tail (simp (pcb_null, other, first, loop) refl)

  -- The tail is taken out, where another pcb is left, but the result is `null`.
  out_proc_q-at_tail :
      (x y : ℕ) (ys : List ℕ)
      → IsRing t tp (x ∷ y ∷ ys)
      → out_proc_q tp x (turn t) ≡ ok (null, y) (turn (cut t x))
  unfolding out_proc_q out_rest last
  out_proc_q-at_tail x y ys r =
      let tail : tp ≡ x = r.tail in
      let first = r.valid.0 in
      let left = cut-tail x y ys r in
      let back = (Seg-last t.p_next t.p_prev x (y ∷ ys) x r.links).1 in
      let own : has (t.p_prev x) (y ∷ ys) ≡ true =
        subst (λ b. has b (y ∷ ys) ≡ true) (sym back) (has-last y ys) in
      let apart = ne_of_has x (t.p_prev x) (y ∷ ys) r.distinct.0 own in
      let alone : (x == t.p_prev x) ≡ false = ground arith in
      let same : (x == x) ≡ true = ground arith in
      let pcb_null : (x == null) ≡ false = ground arith in
      let cuts = cut_member (x ∷ y ∷ ys) x r (ground arith) in
      let head : (cut t x).p_prev x ≡ t.p_prev x = ground arith in
      let loop = out_search-absent (y ∷ ys) x left max_proc (t.p_prev x) r.distinct.0 own in
      rw tail (
        simp (pcb_null, same, first, alone, cuts, head, loop)
          (ap (λ n. ok (null, n) (turn (cut t x))) r.links.0))

module _ {s : Procs} {tp : ℕ} where
  IsRing-drop :
      (xs : List ℕ) (p : ℕ)
      → IsRing (turn s) tp xs
      → has p xs ≡ true
      → (tp == p) ≡ false
      → Returns
          (λ r s'.
            (r.0 ≡ p) × IsRing (turn s') r.1 (drop_all p xs) × OnlyLinks xs (turn s) (turn s'))
          (out_proc_q tp p s)
  IsRing-drop [] p r m other = absurd (ground arith)
  IsRing-drop (x ∷ xs) p r m other =
      let behind : has p xs ≡ true = ground (arith, r.tail) in
      rw (out_proc_q-behind x xs p r behind)
        (returns (refl, left_behind x xs p r behind, cut-OnlyLinks (x ∷ xs) p r m))

  IsRing-tail :
      (xs : List ℕ) (x : ℕ)
      → IsRing (turn s) tp (x ∷ xs)
      → xs ≢ []
      → Returns
          (λ r s'. (r.0 ≡ null) × IsRing (turn s') r.1 xs × OnlyLinks (x ∷ xs) (turn s) (turn s'))
          (out_proc_q tp x s)
  IsRing-tail [] x r ne = absurd (ne refl)
  IsRing-tail (y ∷ ys) x r ne =
      rw (out_proc_q-at_tail x y ys r)
        (returns (refl, cut-tail x y ys r, cut-OnlyLinks (x ∷ y ∷ ys) x r (ground arith)))

  -- A member that is not the tail is taken out and returned, and the others stay in order.
  pub out_proc_q-drop_turned :
      (q : List ℕ) (p : ℕ)
      → IsQueue (turn s) tp q
      → has p q ≡ true
      → (tp == p) ≡ false
      → Returns (λ r s'. Left (turn s) p (drop_all p q) q r (turn s')) (out_proc_q tp p s)
  out_proc_q-drop_turned q p r m other =
      Returns-mono (IsRing-drop (reverse q) p r (rw has-reverse m) other) λ r' s' (e, ring, only). (
        e,
        subst (λ l. IsRing (turn s') r'.1 l) (drop_all-reverse p q) ring,
        OnlyLinks-mono (reverse q) q (λ b m. rw has-reverse m) only,
      )

  -- The tail of a queue with other pcbs is taken out too, and the others stay in order, but the result
  -- is `null`.
  pub out_proc_q-tail_lost :
      (q : List ℕ) (x : ℕ)
      → IsQueue (turn s) tp (q ++ x ∷ [])
      → q ≢ []
      → Returns (λ r s'. Left (turn s) null q (q ++ x ∷ []) r (turn s')) (out_proc_q tp x s)
  out_proc_q-tail_lost q x r ne =
      Returns-mono
        (IsRing-tail (reverse q) x (subst (λ l. IsRing (turn s) tp l) (reverse-append q (x ∷ [])) r)
          (reverse_ne q ne))
        λ r' s' (e, ring, only). (
          e,
          ring,
          OnlyLinks-mono (x ∷ reverse q) (q ++ x ∷ [])
              (λ b m. ground (arith, has-reverse b q, has-append b q (x ∷ []))) only,
        )
