-- ===== src/Prelude/Lists.antt =====
-- Lists of addresses: membership as a test, distinctness, and the pigeonhole bound.
use Prim.Native.Nat.{ℕ, zero, suc, ◌+◌, ◌≤◌}
use mathlib.Core.Path.{◌≡◌, refl, ap}
use mathlib.Core.Logic.{inl, inr, ◌≢◌}
use mathlib.Core.Bool.{Bool, true, false, ◌&&◌, ◌||◌, or_assoc}
use mathlib.Core.List.{List, [], ◌∷◌, ◌++◌, reverse, reverse-cons, append-nil}
use native.Mathlib.Omega.{arith}
use os_fall_2021_project.Prelude.Tests.{◌==◌, if◌then◌else◌, leb, Bool-cases}

module _ {ℓ} {A : Type ℓ} where
  abbrev pub length : List A → ℕ
  length [] = 0
  length (x ∷ xs) = suc (length xs)

  pub length-append : (xs ys : List A) → length (xs ++ ys) ≡ length xs + length ys
  length-append [] ys = omega arith
  length-append (x ∷ xs) ys = omega (arith, length-append xs ys)

abbrev pub has : ℕ → List ℕ → Bool
has a [] = false
has a (x ∷ xs) = (a == x) || has a xs

abbrev pub Distinct : List ℕ → Type 0
Distinct [] = Unit
Distinct (x ∷ xs) = (has x xs ≡ false) × Distinct xs

-- `p` holds of each member.
abbrev pub AllTrue : (ℕ → Bool) → List ℕ → Type 0
AllTrue p [] = Unit
AllTrue p (x ∷ xs) = (p x ≡ true) × AllTrue p xs

pub has-append : (a : ℕ) (xs ys : List ℕ) → has a (xs ++ ys) ≡ (has a xs || has a ys)
has-append a [] ys = refl
has-append a (x ∷ xs) ys = rw (has-append a xs ys, or_assoc)

pub AllTrue-has : (p : ℕ → Bool) (a : ℕ) (xs : List ℕ) → AllTrue p xs → has a xs ≡ true → p a ≡ true
AllTrue-has p a [] h m = ground arith
AllTrue-has p a (x ∷ xs) h m = ground (arith, AllTrue-has p a xs h.1)

pub AllTrue-append :
    (p : ℕ → Bool) (xs ys : List ℕ) → AllTrue p xs → AllTrue p ys → AllTrue p (xs ++ ys)
AllTrue-append p [] ys hx hy = hy
AllTrue-append p (x ∷ xs) ys hx hy = (hx.0, AllTrue-append p xs ys hx.1 hy)

pub AllTrue-left : (p : ℕ → Bool) (xs ys : List ℕ) → AllTrue p (xs ++ ys) → AllTrue p xs
AllTrue-left p [] ys h = tt
AllTrue-left p (x ∷ xs) ys h = (h.0, AllTrue-left p xs ys h.1)

pub AllTrue-right : (p : ℕ → Bool) (xs ys : List ℕ) → AllTrue p (xs ++ ys) → AllTrue p ys
AllTrue-right p [] ys h = h
AllTrue-right p (x ∷ xs) ys h = AllTrue-right p xs ys h.1

-- What it means for a member in the middle of a list that the list is distinct.
pub Distinct-middle :
    (xs : List ℕ) (p : ℕ) (ys : List ℕ)
    → Distinct (xs ++ p ∷ ys)
    → Distinct (xs ++ ys) × (has p (xs ++ ys) ≡ false)
Distinct-middle [] p ys d = (d.1, d.0)
Distinct-middle (x ∷ xs) p ys d =
    ground (arith, Distinct-middle xs p ys d.1, has-append x xs (p ∷ ys), has-append x xs ys)

pub Distinct-left : (xs ys : List ℕ) → Distinct (xs ++ ys) → Distinct xs
Distinct-left [] ys d = tt
Distinct-left (x ∷ xs) ys d = ground (arith, Distinct-left xs ys d.1, has-append x xs ys)

pub Distinct-right : (xs ys : List ℕ) → Distinct (xs ++ ys) → Distinct ys
Distinct-right [] ys d = d
Distinct-right (x ∷ xs) ys d = Distinct-right xs ys d.1

pub Distinct-apart :
    (a : ℕ) (xs ys : List ℕ) → Distinct (xs ++ ys) → has a xs ≡ true → has a ys ≡ false
Distinct-apart a [] ys d m = ground arith
Distinct-apart a (x ∷ xs) ys d m = ground (arith, Distinct-apart a xs ys d.1, has-append x xs ys)

-- The list without `a`.
unfoldable pub drop_all : ℕ → List ℕ → List ℕ
drop_all a [] = []
drop_all a (x ∷ xs) = if x == a then drop_all a xs else x ∷ drop_all a xs

pub has-drop_all : (b a : ℕ) (xs : List ℕ) → has b xs ≡ false → has b (drop_all a xs) ≡ false
unfolding drop_all
has-drop_all b a [] h = refl
has-drop_all b a (x ∷ xs) h = ground (arith, has-drop_all b a xs)

pub Distinct-drop_all : (a : ℕ) (xs : List ℕ) → Distinct xs → Distinct (drop_all a xs)
unfolding drop_all
Distinct-drop_all a [] d = tt
Distinct-drop_all a (x ∷ xs) d = ground (arith, Distinct-drop_all a xs, has-drop_all x a xs)

pub drop_all_absent : (a : ℕ) (xs : List ℕ) → has a xs ≡ false → drop_all a xs ≡ xs
unfolding drop_all
drop_all_absent a [] h = refl
drop_all_absent a (x ∷ xs) h = ground (arith, drop_all_absent a xs)

length-drop_all : (a : ℕ) (xs : List ℕ) → Distinct xs → length xs ≤ suc (length (drop_all a xs))
unfolding drop_all
length-drop_all a [] d = omega arith
length-drop_all a (x ∷ xs) d = ground (arith, length-drop_all a xs, drop_all_absent a xs)

abbrev pub in_range : ℕ → ℕ → Bool
in_range n x = leb 1 x && leb x n

in_range-drop_all :
    (n : ℕ) (xs : List ℕ)
    → AllTrue (in_range (suc n)) xs
    → AllTrue (in_range n) (drop_all (suc n) xs)
unfolding drop_all
in_range-drop_all n [] h = tt
in_range-drop_all n (x ∷ xs) h = ground (arith, in_range-drop_all n xs)

-- Distinct numbers from 1 to `n` are at most `n`.
pub length-le_of_Distinct :
    (n : ℕ) (xs : List ℕ) → Distinct xs → AllTrue (in_range n) xs → length xs ≤ n
length-le_of_Distinct zero [] d h = omega arith
length-le_of_Distinct zero (x ∷ xs) d h = ground arith
length-le_of_Distinct (suc n) xs d h = omega (
  arith,
  length-drop_all (suc n) xs d,
  length-le_of_Distinct n (drop_all (suc n) xs) (Distinct-drop_all (suc n) xs d)
      (in_range-drop_all n xs h),
)

pub ne_of_has : (a b : ℕ) (xs : List ℕ) → has a xs ≡ false → has b xs ≡ true → (a == b) ≡ false
ne_of_has a b [] out m = ground arith
ne_of_has a b (x ∷ xs) out m = ground (arith, ne_of_has a b xs)

pub AllTrue-of_has :
    (p : ℕ → Bool) (xs : List ℕ) → ((b : ℕ) → has b xs ≡ true → p b ≡ true) → AllTrue p xs
AllTrue-of_has p [] h = tt
AllTrue-of_has p (x ∷ xs) h = (h x (ground arith), AllTrue-of_has p xs (λ b m. h b (ground arith)))

pub AllTrue-self : (xs : List ℕ) → AllTrue (λ b. has b xs) xs
AllTrue-self xs = AllTrue-of_has (λ b. has b xs) xs (λ b m. m)

-- A member has a place in the list.
pub record Place (p : ℕ) (xs : List ℕ) : Type 0 where
  pub before : List ℕ
  pub after : List ℕ
  pub split : xs ≡ before ++ p ∷ after

pub place : (p : ℕ) (xs : List ℕ) → has p xs ≡ true → Place p xs
place p [] h = ground arith
place p (x ∷ xs) h = elim (Bool-cases (p == x)) [
  | inl e ↦ record { before = []; after = xs; split = ground arith }
  | inr ne ↦
      let rest = place p xs (ground arith) in
      record { before = x ∷ rest.before; after = rest.after; split = ap (λ l. x ∷ l) rest.split }
]

-- From a distinct list exactly that member is dropped.
pub drop_all-middle :
    (xs : List ℕ) (p : ℕ) (ys : List ℕ)
    → Distinct (xs ++ p ∷ ys)
    → drop_all p (xs ++ p ∷ ys) ≡ xs ++ ys
unfolding drop_all
drop_all-middle [] p ys d = ground (arith, drop_all_absent p ys)
drop_all-middle (x ∷ xs) p ys d =
    ground (arith, drop_all-middle xs p ys d.1, has-append x xs (p ∷ ys))

-- A member of a distinct list is dropped once.
pub length-drop_member :
    (p : ℕ) (xs : List ℕ) → Distinct xs → has p xs ≡ true → length xs ≡ suc (length (drop_all p xs))
unfolding drop_all
length-drop_member p [] d m = ground arith
length-drop_member p (x ∷ xs) d m =
    ground (arith, length-drop_member p xs d.1, drop_all_absent p xs)

pub has-reverse : (a : ℕ) (xs : List ℕ) → has a (reverse xs) ≡ has a xs
has-reverse a [] = refl
has-reverse a (x ∷ xs) = rw (reverse-cons, has-append) (ground (arith, has-reverse a xs))

pub drop_all-append :
    (a : ℕ) (xs ys : List ℕ) → drop_all a (xs ++ ys) ≡ drop_all a xs ++ drop_all a ys
unfolding drop_all
drop_all-append a [] ys = refl
drop_all-append a (x ∷ xs) ys = ground (arith, drop_all-append a xs ys)

pub drop_all-reverse : (a : ℕ) (xs : List ℕ) → drop_all a (reverse xs) ≡ reverse (drop_all a xs)
unfolding drop_all
drop_all-reverse a [] = refl
drop_all-reverse a (x ∷ xs) =
    rw (reverse-cons, drop_all-append a (reverse xs) (x ∷ []), drop_all-reverse a xs)
      (elim (Bool-cases (x == a)) [ inl e ↦ rw (e, append-nil) | inr ne ↦ rw (ne, reverse-cons) ])

pub drop_all_ne :
    (a x : ℕ) (xs : List ℕ) → (x == a) ≡ false → drop_all a (x ∷ xs) ≡ x ∷ drop_all a xs
unfolding drop_all
drop_all_ne a x xs ne = rw ne

pub AllTrue-drop_all :
    (p : ℕ → Bool) (a : ℕ) (xs : List ℕ) → AllTrue p xs → AllTrue p (drop_all a xs)
unfolding drop_all
AllTrue-drop_all p a [] h = tt
AllTrue-drop_all p a (x ∷ xs) h = ground (arith, AllTrue-drop_all p a xs)

pub AllTrue-out :
    (p : ℕ → Bool) (a : ℕ) (xs : List ℕ) → p a ≡ false → AllTrue p xs → has a xs ≡ false
AllTrue-out p a [] h v = refl
AllTrue-out p a (x ∷ xs) h v = ground (arith, AllTrue-out p a xs h v.1)

pub Distinct-insert :
    (xs : List ℕ) (p : ℕ) (ys : List ℕ)
    → Distinct (xs ++ ys)
    → has p (xs ++ ys) ≡ false
    → Distinct (xs ++ p ∷ ys)
Distinct-insert [] p ys d out = (out, d)
Distinct-insert (x ∷ xs) p ys d out =
    ground (arith, Distinct-insert xs p ys d.1, has-append x xs ys, has-append x xs (p ∷ ys))

pub append_ne {ℓ} : {A : Type ℓ} (xs : List A) (y : A) (ys : List A) → xs ++ y ∷ ys ≢ []
append_ne [] y ys = cc
append_ne (x ∷ xs) y ys = λ e. cc

pub has-drop_all_back :
    (a b : ℕ) (xs : List ℕ) → has b (drop_all a xs) ≡ true → (has b xs ≡ true) × ((b == a) ≡ false)
unfolding drop_all
has-drop_all_back a b [] m = absurd (ground arith)
has-drop_all_back a b (x ∷ xs) m = ground (arith, has-drop_all_back a b xs)

pub length-reverse : (xs : List ℕ) → length (reverse xs) ≡ length xs
length-reverse [] = refl
length-reverse (x ∷ xs) =
    rw (reverse-cons x xs)
      (omega (arith, length-append {0} (reverse xs) (x ∷ []), length-reverse xs))

-- The list without the members of another.
abbrev pub without : List ℕ → List ℕ → List ℕ
without [] xs = xs
without (p ∷ ps) xs = without ps (drop_all p xs)

pub without-append : (ps qs xs : List ℕ) → without (ps ++ qs) xs ≡ without qs (without ps xs)
without-append [] qs xs = refl
without-append (p ∷ ps) qs xs = without-append ps qs (drop_all p xs)

pub has-without : (b : ℕ) (ps xs : List ℕ) → has b xs ≡ false → has b (without ps xs) ≡ false
has-without b [] xs h = h
has-without b (p ∷ ps) xs h = has-without b ps (drop_all p xs) (has-drop_all b p xs h)

pub has-drop_keep :
    (b a : ℕ) (xs : List ℕ) → (b == a) ≡ false → has b xs ≡ true → has b (drop_all a xs) ≡ true
unfolding drop_all
has-drop_keep b a [] ne h = ground arith
has-drop_keep b a (x ∷ xs) ne h = ground (arith, has-drop_keep b a xs ne)

pub has-keep :
    (b : ℕ) (ps xs : List ℕ) → has b ps ≡ false → has b xs ≡ true → has b (without ps xs) ≡ true
has-keep b [] xs out h = h
has-keep b (p ∷ ps) xs out h =
    has-keep b ps (drop_all p xs) (ground arith) (has-drop_keep b p xs (ground arith) h)
