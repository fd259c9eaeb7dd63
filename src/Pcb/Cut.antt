-- ===== src/Pcb/Cut.antt =====
-- A pcb unlinked from a ring, as `removeProcQ` and `outProcQ` do it.
use mathlib.Core.Path.{subst}
use os_fall_2021_project.Prelude.{
  ℕ, ◌≡◌, refl, true, List, [], ◌∷◌, ◌++◌, arith, has, AllTrue-self, ne_of_has, Distinct-middle,
  AllTrue-left, AllTrue-right, AllTrue-append,
}
use os_fall_2021_project.Pcb.{Procs, is_pcb}
use os_fall_2021_project.Pcb.Seg.{
  Seg, Seg-unlink, cut_next, cut_prev, next-AllTrue, prev-AllTrue, Seg-past,
}
use os_fall_2021_project.Pcb.Ring.{IsRing, OnlyLinks}

-- The links after the pcb `p` is unlinked.
abbrev pub cut : Procs → ℕ → Procs
cut s p = record s { p_next = cut_next s.p_next s.p_prev p; p_prev = cut_prev s.p_next s.p_prev p }

module _ {s : Procs} {tp : ℕ} where
  -- The neighbours of a member are members.
  pub next-member :
      (xs : List ℕ) (b : ℕ) → IsRing s tp xs → has b xs ≡ true → has (s.p_next b) xs ≡ true
  next-member (x ∷ xs) b r m =
      next-AllTrue s.p_next s.p_prev (λ q. has q (x ∷ xs)) x xs x b r.links (AllTrue-self (x ∷ xs))
        (ground arith) m
  next-member [] b r m = ground arith

  pub prev-member :
      (xs : List ℕ) (b : ℕ) → IsRing s tp xs → has b xs ≡ true → has (s.p_prev b) xs ≡ true
  prev-member (x ∷ xs) b r m =
      prev-AllTrue s.p_next s.p_prev (λ q. has q (x ∷ xs)) x xs x b r.links (AllTrue-self (x ∷ xs))
        m
  prev-member [] b r m = ground arith

  pub cut-OnlyLinks :
      (xs : List ℕ) (p : ℕ) → IsRing s tp xs → has p xs ≡ true → OnlyLinks xs s (cut s p)
  cut-OnlyLinks xs p r m =
      let n = next-member xs p r m in
      let v = prev-member xs p r m in
      record {
        next_out = λ b o. ground (arith, ne_of_has b (s.p_prev p) xs);
        prev_out = λ b o. ground (arith, ne_of_has b (s.p_next p) xs);
        rest = refl;
      }

  -- Behind the tail.
  pub cut-middle :
      (x : ℕ) (xs : List ℕ) (p : ℕ) (ys : List ℕ)
      → IsRing s tp (x ∷ xs ++ p ∷ ys)
      → IsRing (cut s p) tp (x ∷ xs ++ ys)
  cut-middle x xs p ys r = record {
    tail = r.tail;
    links = Seg-unlink s.p_next s.p_prev p x xs ys x r.links r.distinct r.distinct.0;
    distinct = (Distinct-middle (x ∷ xs) p ys r.distinct).0;
    valid =
        AllTrue-append is_pcb (x ∷ xs) ys (AllTrue-left is_pcb (x ∷ xs) (p ∷ ys) r.valid)
          (AllTrue-right is_pcb (x ∷ xs) (p ∷ ys) r.valid).1;
  }

  -- The tail, where it is not alone: the pcb behind it becomes the tail.
  pub cut-tail : (p y : ℕ) (ys : List ℕ) → IsRing s tp (p ∷ y ∷ ys) → IsRing (cut s p) y (y ∷ ys)
  cut-tail p y ys r = record {
    tail = refl;
    links =
        subst (λ w. Seg (cut s p).p_next (cut s p).p_prev y ys w) r.links.0
          (Seg-past s.p_next s.p_prev p y ys r.links.2 r.distinct.1 (ground arith));
    distinct = r.distinct.1;
    valid = r.valid.1;
  }
