-- ===== src/Prelude/Tests.antt =====
-- Boolean tests on the native numbers, the conditional, and updates of a map.
use Prim.Native.Nat.{ℕ, compare, Ordering}
use mathlib.Core.Path.{◌≡◌, refl}
use mathlib.Core.Logic.{◌≢◌, ◌⊎◌, inl, inr}
use mathlib.Core.Bool.{Bool, true, false}
use native.Mathlib.Omega.{arith}

abbrev pub ltb : ℕ → ℕ → Bool
ltb a b = elim (compare a b) [ Ordering.lt ↦ true | _ ↦ false ]

abbrev pub leb : ℕ → ℕ → Bool
leb a b = elim (compare a b) [ Ordering.gt ↦ false | _ ↦ true ]

infix 50 ◌==◌
abbrev pub ◌==◌ : ℕ → ℕ → Bool
a == b = elim (compare a b) [ Ordering.eq ↦ true | _ ↦ false ]

infix 1 if◌then◌else◌
abbrev pub if◌then◌else◌ {ℓ} : {A : Type ℓ} → Bool → A → A → A
if true then x else y = x
if false then x else y = y

pub ==_refl : (a : ℕ) → (a == a) ≡ true
==_refl a = ground arith

pub ==_of_ne : (a b : ℕ) → a ≢ b → (a == b) ≡ false
==_of_ne a b h = ground arith

-- To split on a computed value and keep the equation.
pub Bool-cases : (b : Bool) → (b ≡ true) ⊎ (b ≡ false)
Bool-cases true = inl refl
Bool-cases false = inr refl

-- A map from addresses to values, written at one address.
abbrev pub update {ℓ} : {A : Type ℓ} → (ℕ → A) → ℕ → A → ℕ → A
update f a v b = if b == a then v else f b

pub update_self {ℓ} : {A : Type ℓ} (f : ℕ → A) (a : ℕ) (v : A) → update f a v a ≡ v
update_self f a v = ground arith

-- Only the last value that is written counts.
pub update_again {ℓ} :
    {A : Type ℓ} (f : ℕ → A) (a : ℕ) (x y : A) → update (update f a x) a y ≡ update f a y
update_again f a x y = λ i b. again b i
  where
    again : (b : ℕ) → update (update f a x) a y b ≡ update f a y b
    again b = ground arith

pub update_ne {ℓ} : {A : Type ℓ} (f : ℕ → A) (a : ℕ) (v : A) (b : ℕ) → b ≢ a → update f a v b ≡ f b
update_ne f a v b h = ground arith

-- Writing at one address the value of another leaves the value of that other.
pub update_same {ℓ} : {A : Type ℓ} (f : ℕ → A) (a b : ℕ) → update f a (f b) b ≡ f b
update_same f a b = ground arith
