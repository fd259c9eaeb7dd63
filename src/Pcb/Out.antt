-- ===== src/Pcb/Out.antt =====
-- `outProcQ` takes a given pcb out of a queue, wherever it stands.
use mathlib.Core.Path.{subst, sym}
use os_fall_2021_project.Prelude.{
  ℕ, zero, suc, ◌+◌, ◌<◌, ◌≡◌, refl, inl, inr, true, false, List, [], ◌∷◌, ◌++◌, arith, has, ◌==◌,
  if◌then◌else◌, AllTrue, length, AllTrue-has, drop_all, drop_all-middle, place, Bool-cases,
  ==_refl,
}
use os_fall_2021_project.Machine.Word.{null, max_proc}
use os_fall_2021_project.Machine.Outcome.{ok, Returns, returns}
use os_fall_2021_project.Pcb.{Procs, is_pcb, out_loop, out_found, out_proc_q}
use os_fall_2021_project.Pcb.Seg.{Seg}
use os_fall_2021_project.Pcb.Ring.{IsRing, IsRing-length}
use os_fall_2021_project.Pcb.Cut.{
  cut, cut-middle, cut-tail, cut-OnlyLinks, next-member, prev-member,
}
use os_fall_2021_project.Pcb.Remove.{Removed}

module _ (s : Procs) (p t : ℕ) where
  -- With a round for each pcb and one more the loop stops, at `p` if it is met before the tail.
  out_loop-Seg :
      (fuel a : ℕ) (xs : List ℕ)
      → Seg s.p_next s.p_prev a xs t
      → AllTrue is_pcb xs
      → has t xs ≡ false
      → length xs < fuel
      → out_loop fuel (s.p_next a) p t s ≡ ok (if has p xs then p else t) s
  unfolding out_loop
  out_loop-Seg zero a xs links all out h = absurd (omega arith)
  out_loop-Seg (suc fuel) a [] links all out h = ground arith
  out_loop-Seg (suc fuel) a (x ∷ xs) links all out h =
      ground (arith, out_loop-Seg fuel x xs links.2 all.1, ==_refl t)

out_found-cut :
    (s : Procs) (tp t p : ℕ)
    → is_pcb p ≡ true
    → is_pcb t ≡ true
    → is_pcb (s.p_prev p) ≡ true
    → is_pcb (s.p_next p) ≡ true
    → out_found tp p t p s
      ≡ ok (p, if p == t then (if s.p_next p == t then null else s.p_next p) else tp) (cut s p)
unfolding out_found
out_found-cut s tp t p hp ht hv hn = ground arith

module _ {s : Procs} {tp : ℕ} where
  loop_from_tail :
      (t : ℕ) (xs : List ℕ) (p : ℕ)
      → IsRing s tp (t ∷ xs)
      → out_loop (max_proc + 1) (s.p_next t) p t s ≡ ok (if has p xs then p else t) s
  loop_from_tail t xs p r =
      out_loop-Seg s p t (max_proc + 1) t xs r.links r.valid.1 r.distinct.0
        (omega (arith, IsRing-length (t ∷ xs) r))

  -- A pcb that is not in the queue: `null`, and nothing changes.
  pub out_proc_q-absent :
      (xs : List ℕ) (p : ℕ)
      → IsRing s tp xs
      → has p xs ≡ false
      → out_proc_q tp p s ≡ ok (null, tp) s
  unfolding out_proc_q
  out_proc_q-absent [] p r out = ground arith
  out_proc_q-absent (t ∷ xs) p r out = let loop = loop_from_tail t xs p r in ground arith

  -- The part of `outProcQ` behind the loop.
  out_proc_q-found :
      (t : ℕ) (xs : List ℕ) (p : ℕ)
      → IsRing s tp (t ∷ xs)
      → has p (t ∷ xs) ≡ true
      → out_proc_q tp p s
        ≡ ok (p, if p == t then (if s.p_next p == t then null else s.p_next p) else tp) (cut s p)
  unfolding out_proc_q
  out_proc_q-found t xs p r m =
      let ring = t ∷ xs in
      let pcb : (b : ℕ) → has b ring ≡ true → is_pcb b ≡ true =
        λ b. AllTrue-has is_pcb b ring r.valid in
      let own = pcb p m in
      let found =
        out_found-cut s tp t p own r.valid.0 (pcb (s.p_prev p) (prev-member ring p r m))
          (pcb (s.p_next p) (next-member ring p r m)) in
      let loop = loop_from_tail t xs p r in ground (arith, found, loop)

  -- The ring that is left, by where the pcb stood: alone, at the tail, behind it.
  left_alone : (p : ℕ) → IsRing s tp (p ∷ []) → IsRing (cut s p) null (drop_all p (p ∷ []))
  left_alone p r =
      rw (drop_all-middle [] p [] r.distinct)
        (record { tail = refl; links = tt; distinct = tt; valid = tt })

  pub left_tail :
      (p y : ℕ) (ys : List ℕ)
      → IsRing s tp (p ∷ y ∷ ys)
      → IsRing (cut s p) (s.p_next p) (drop_all p (p ∷ y ∷ ys))
  left_tail p y ys r =
      rw (drop_all-middle [] p (y ∷ ys) r.distinct)
        (subst (λ t. IsRing (cut s p) t (y ∷ ys)) (sym r.links.0) (cut-tail p y ys r))

  pub left_behind :
      (t : ℕ) (xs : List ℕ) (p : ℕ)
      → IsRing s tp (t ∷ xs)
      → has p xs ≡ true
      → IsRing (cut s p) tp (drop_all p (t ∷ xs))
  left_behind t xs p r m =
      let open_at = place p xs m in
      let b = open_at.before in
      let a = open_at.after in
      let r' : IsRing s tp (t ∷ b ++ p ∷ a) = subst (λ l. IsRing s tp (t ∷ l)) open_at.split r in
      subst (λ l. IsRing (cut s p) tp (drop_all p (t ∷ l))) (sym open_at.split)
        (rw (drop_all-middle (t ∷ b) p a r'.distinct) (cut-middle t b p a r'))

  left_at_tail :
      (p : ℕ) (xs : List ℕ)
      → IsRing s tp (p ∷ xs)
      → IsRing (cut s p) (if s.p_next p == p then null else s.p_next p) (drop_all p (p ∷ xs))
  left_at_tail p [] r =
      let alone : (s.p_next p == p) ≡ true = ground arith in rw alone (left_alone p r)
  left_at_tail p (y ∷ ys) r =
      let ne : (s.p_next p == p) ≡ false = ground arith in rw ne (left_tail p y ys r)

  left-IsRing :
      (t : ℕ) (xs : List ℕ) (p : ℕ)
      → IsRing s tp (t ∷ xs)
      → has p (t ∷ xs) ≡ true
      → IsRing
          (cut s p)
          (if p == t then (if s.p_next p == t then null else s.p_next p) else tp)
          (drop_all p (t ∷ xs))
  left-IsRing t xs p r m = elim (Bool-cases (p == t)) [
    | inl e ↦
        let same : p ≡ t = ground arith in rw (e, ← same) (left_at_tail p xs (rw (← same) at r))
    | inr ne ↦ rw ne (left_behind t xs p r (ground arith))
  ]

  -- A pcb of the queue: that pcb, and the ring without it.
  pub out_proc_q-ring :
      (xs : List ℕ) (p : ℕ)
      → IsRing s tp xs
      → has p xs ≡ true
      → Returns (Removed s p (drop_all p xs) xs) (out_proc_q tp p s)
  out_proc_q-ring [] p r m = ground arith
  out_proc_q-ring (t ∷ xs) p r m =
      rw (out_proc_q-found t xs p r m)
        (returns (refl, left-IsRing t xs p r m, cut-OnlyLinks (t ∷ xs) p r m))
