-- ===== src/Pcb/Seg.antt =====
-- Doubly linked segments of the pcb table, and what a relinking of their ends does to them.
use mathlib.Core.List.{append-nil}
use mathlib.Core.Path.{subst}
use os_fall_2021_project.Prelude.{
  ℕ, ◌≡◌, ◌≢◌, refl, Bool, AllTrue, true, false, List, [], ◌∷◌, ◌++◌, arith, update, has, Distinct,
  has-append, Distinct-apart, Distinct-left, Distinct-right,
}

-- From `a` the `next` links lead through `xs` to `z`, and the `prev` links lead back.
abbrev pub Seg : (next prev : ℕ → ℕ) → ℕ → List ℕ → ℕ → Type 0
Seg next prev a [] z = (next a ≡ z) × (prev z ≡ a)
Seg next prev a (x ∷ xs) z = (next a ≡ x) × (prev x ≡ a) × Seg next prev x xs z

-- The last of `a ∷ xs`.
unfoldable pub last : ℕ → List ℕ → ℕ
last a [] = a
last a (x ∷ xs) = last x xs

pub has-last : (a : ℕ) (xs : List ℕ) → has (last a xs) (a ∷ xs) ≡ true
unfolding last
has-last a [] = ground arith
has-last a (x ∷ xs) = ground (arith, has-last x xs)

module _ (next prev : ℕ → ℕ) where
  pub Seg-last :
      (a : ℕ) (xs : List ℕ) (z : ℕ)
      → Seg next prev a xs z
      → (next (last a xs) ≡ z) × (prev z ≡ last a xs)
  unfolding last
  Seg-last a [] z s = s
  Seg-last a (x ∷ xs) z s = Seg-last x xs z s.2

  -- What holds of the members and of the end holds of the neighbours of a member.
  pub next-AllTrue :
      (P : ℕ → Bool) (a : ℕ) (xs : List ℕ) (z b : ℕ)
      → Seg next prev a xs z
      → AllTrue P (a ∷ xs)
      → P z ≡ true
      → has b (a ∷ xs) ≡ true
      → P (next b) ≡ true
  next-AllTrue P a [] z b s all e m = ground arith
  next-AllTrue P a (x ∷ xs) z b s all e m = ground (arith, next-AllTrue P x xs z b s.2 all.1 e)

  pub prev-AllTrue :
      (P : ℕ → Bool) (a : ℕ) (xs : List ℕ) (z b : ℕ)
      → Seg next prev a xs z
      → AllTrue P (a ∷ xs)
      → has b (z ∷ xs) ≡ true
      → P (prev b) ≡ true
  prev-AllTrue P a [] z b s all m = ground arith
  prev-AllTrue P a (x ∷ xs) z b s all m = ground (arith, prev-AllTrue P x xs z b s.2 all.1)

  pub Seg-split :
      (a : ℕ) (xs : List ℕ) (p : ℕ) (ys : List ℕ) (z : ℕ)
      → Seg next prev a (xs ++ p ∷ ys) z
      → Seg next prev a xs p × Seg next prev p ys z
  Seg-split a [] p ys z s = ((s.0, s.1), s.2)
  Seg-split a (x ∷ xs) p ys z s =
      let rest = Seg-split x xs p ys z s.2 in ((s.0, s.1, rest.0), rest.1)

  pub Seg-join :
      (a : ℕ) (xs : List ℕ) (p : ℕ) (ys : List ℕ) (z : ℕ)
      → Seg next prev a xs p
      → Seg next prev p ys z
      → Seg next prev a (xs ++ p ∷ ys) z
  Seg-join a [] p ys z s t = (s.0, s.1, t)
  Seg-join a (x ∷ xs) p ys z s t = (s.0, s.1, Seg-join x xs p ys z s.2 t)

module _ (next prev next' prev' : ℕ → ℕ) where
  -- A segment survives a change that spares its links.
  pub Seg-frame :
      (a : ℕ) (xs : List ℕ) (z : ℕ)
      → Seg next prev a xs z
      → ((b : ℕ) → has b (a ∷ xs) ≡ true → next' b ≡ next b)
      → ((b : ℕ) → has b xs ≡ true → prev' b ≡ prev b)
      → prev' z ≡ prev z
      → Seg next' prev' a xs z
  Seg-frame a [] z s hn hp hz = ground (arith, hn a)
  Seg-frame a (x ∷ xs) z s hn hp hz = (
    ground (arith, hn a),
    ground (arith, hp x),
    Seg-frame x xs z s.2 (λ b m. hn b (ground arith)) (λ b m. hp b (ground arith)) hz,
  )

  -- A segment led to another end.
  pub Seg-relink :
      (a : ℕ) (xs : List ℕ) (z z' : ℕ)
      → Seg next prev a xs z
      → Distinct (a ∷ xs)
      → ((b : ℕ) → has b (a ∷ xs) ≡ true → b ≢ last a xs → next' b ≡ next b)
      → ((b : ℕ) → has b xs ≡ true → prev' b ≡ prev b)
      → next' (last a xs) ≡ z'
      → prev' z' ≡ last a xs
      → Seg next' prev' a xs z'
  unfolding last
  Seg-relink a [] z z' s d hn hp e f = (e, f)
  Seg-relink a (x ∷ xs) z z' s d hn hp e f = (
    ground (arith, hn a, has-last x xs),
    ground (arith, hp x),
    Seg-relink x xs z z' s.2 d.1 (λ b m ne. hn b (ground arith) ne) (λ b m. hp b (ground arith)) e
        f,
  )

module _ (next prev : ℕ → ℕ) (p : ℕ) where
  abbrev pub cut_next : ℕ → ℕ
  cut_next = update next (prev p) (next p)

  abbrev pub cut_prev : ℕ → ℕ
  cut_prev = update prev (next p) (prev p)

  -- The segment that leads to `p` leads past it once `p` is unlinked.
  pub Seg-past :
      (a : ℕ) (xs : List ℕ)
      → Seg next prev a xs p
      → Distinct (a ∷ xs)
      → has (next p) xs ≡ false
      → Seg cut_next cut_prev a xs (next p)
  Seg-past a xs s d out =
      let e = (Seg-last next prev a xs p s).1 in
      Seg-relink next prev cut_next cut_prev a xs p (next p) s d (λ b m ne. ground arith)
        (λ b m. ground arith) (ground arith) (ground arith)

  -- `p` unlinked from the middle or the end of a segment.
  pub Seg-unlink :
      (a : ℕ) (xs ys : List ℕ) (z : ℕ)
      → Seg next prev a (xs ++ p ∷ ys) z
      → Distinct (a ∷ xs ++ p ∷ ys)
      → has z (xs ++ p ∷ ys) ≡ false
      → Seg cut_next cut_prev a (xs ++ ys) z
  Seg-unlink a xs [] z s d out =
      let (front, back) = Seg-split next prev a xs p [] z s in
      let past =
        Seg-past a xs front (Distinct-left (a ∷ xs) (p ∷ []) d)
          (ground (arith, has-append z xs (p ∷ []))) in
      rw append-nil (subst (λ w. Seg cut_next cut_prev a xs w) back.0 past)
  Seg-unlink a xs (y ∷ ys) z s d out =
      let (front, back) = Seg-split next prev a xs p (y ∷ ys) z s in
      let here = (Seg-last next prev a xs p front).1 in
      let apart : (b : ℕ) → has b (a ∷ xs) ≡ true → has b (p ∷ y ∷ ys) ≡ false =
        λ b. Distinct-apart b (a ∷ xs) (p ∷ y ∷ ys) d in
      let own = Distinct-right (a ∷ xs) (p ∷ y ∷ ys) d in
      let past =
        Seg-past a xs front (Distinct-left (a ∷ xs) (p ∷ y ∷ ys) d)
          (ground (arith, apart (next p))) in
      Seg-join cut_next cut_prev a xs y ys z (subst (λ w. Seg cut_next cut_prev a xs w) back.0 past)
        (Seg-frame next prev cut_next cut_prev y ys z back.2
          (λ b m. ground (arith, apart (last a xs) (has-last a xs))) (λ b m. ground arith)
          (ground (arith, has-append z xs (p ∷ y ∷ ys))))

pub last-append : (a : ℕ) (xs : List ℕ) (d : ℕ) (ys : List ℕ) → last a (xs ++ d ∷ ys) ≡ last d ys
unfolding last
last-append a [] d ys = refl
last-append a (x ∷ xs) d ys = last-append x xs d ys
