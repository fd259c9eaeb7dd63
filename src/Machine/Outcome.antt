-- ===== src/Machine/Outcome.antt =====
-- What a piece of kernel code does to a state `S`: it returns, or hands the processor over by an
-- instruction that does not return, or reads through a pointer that is none, or is still in a loop
-- when its fuel is used up.
use os_fall_2021_project.Prelude.{ℕ, zero, suc, ◌+◌, ◌<◌, ◌≡◌, refl, arith}
use mathlib.Core.Path.{subst}
use os_fall_2021_project.Machine.Types.{State}

-- The instructions that do not return: LDST, LDCXT, HALT, PANIC and WAIT (after which the next
-- interrupt enters the kernel anew). So does SYSCALL where the nucleus itself executes it: the
-- exception enters the nucleus anew.
pub data Stop : Type 0 where
  load_state : State → Stop
  load_context : (stack_ptr status pc : ℕ) → Stop
  system_call : (a0 a1 a2 a3 : ℕ) → Stop
  halted panicked waiting : Stop

pub data Outcome (S A : Type 0) : Type 0 where
  ok : A → S → Outcome S A
  stop : Stop → S → Outcome S A
  fault : Outcome S A
  out_of_fuel : Outcome S A

abbrev pub M : Type 0 → Type 0 → Type 0
M S A = S → Outcome S A

abbrev pub pure : {S A : Type 0} → A → M S A
pure a s = ok a s

abbrev pub and_then : {S A B : Type 0} → Outcome S A → (A → S → Outcome S B) → Outcome S B
and_then (ok a s) f = f a s
and_then (stop e s) f = stop e s
and_then fault f = fault
and_then out_of_fuel f = out_of_fuel

infixl 5 ◌>>=◌ ◌>>◌
abbrev pub ◌>>=◌ : {S A B : Type 0} → M S A → (A → M S B) → M S B
◌>>=◌ m f s = and_then (m s) f

abbrev pub ◌>>◌ : {S B : Type 0} → M S (Unit {0}) → M S B → M S B
m >> k = m >>= λ _. k

-- The state, and a new state.
abbrev pub get : {S : Type 0} → M S S
get s = ok s s

abbrev pub put : {S : Type 0} → S → M S (Unit {0})
put s' s = ok tt s'

-- Code over a part of the state runs over the whole.
abbrev pub embed : {S T A : Type 0} → (S → T → S) → S → Outcome T A → Outcome S A
embed set s (ok a t) = ok a (set s t)
embed set s (stop e t) = stop e (set s t)
embed set s fault = fault
embed set s out_of_fuel = out_of_fuel

-- The code returns, and its result and the new state satisfy `P`.
pub data Returns {S A : Type 0} (P : A → S → Type 0) : Outcome S A → Type 0 where
  returns : {a : A} {s : S} → P a s → Returns P (ok a s)

-- The code hands the processor over, and the instruction and the state satisfy `P`.
pub data Stops {S A : Type 0} (P : Stop → S → Type 0) : Outcome S A → Type 0 where
  stops : {e : Stop} {s : S} → P e s → Stops P (stop e s)

module _ {S A : Type 0} {P : A → S → Type 0} where
  pub Returns-bind :
      {B : Type 0} {Q : B → S → Type 0} {r : Outcome S A} {k : A → M S B}
      → Returns P r
      → ((a : A) (s : S) → P a s → Returns Q (k a s))
      → Returns Q (and_then r k)
  Returns-bind (returns p) next = next _ _ p

  pub Returns-mono :
      {Q : A → S → Type 0} {r : Outcome S A}
      → Returns P r
      → ((a : A) (s : S) → P a s → Q a s)
      → Returns Q r
  Returns-mono (returns p) weaken = returns (weaken _ _ p)

  pub Returns-ok : {a : A} {s : S} → Returns P (ok a s) → P a s
  Returns-ok (returns p) = p

  -- The result and the state, with the equation.
  pub Returns-eq : {r : Outcome S A} → Returns P r → (a : A) × (s : S) × (r ≡ ok a s) × P a s
  Returns-eq (returns {a} {s} p) = (a, s, refl, p)

abbrev pub modify : {S : Type 0} → (S → S) → M S (Unit {0})
modify f s = ok tt (f s)

-- `for (i = from; i < from + n; i++) body(i)`.
unfoldable pub for_range : {S : Type 0} → (n from : ℕ) → (ℕ → M S (Unit {0})) → M S (Unit {0})
for_range zero from body = pure tt
for_range (suc n) from body = do body from; for_range n (from + 1) body

-- The invariant rule of that loop.
pub for_range_inv :
    {S : Type 0} (P : ℕ → S → Type 0) (body : ℕ → M S (Unit {0})) (n from end : ℕ) (s : S)
    → from + n ≡ end
    → ((i : ℕ) (t : S) → i < end → P i t → Returns (λ _ t'. P (i + 1) t') (body i t))
    → P from s
    → Returns (λ _ t. P end t) (for_range n from body s)
unfolding for_range
for_range_inv P body zero from end s e keep p =
    let same : from ≡ end = omega arith in returns (subst (λ i. P i s) same p)
for_range_inv P body (suc n) from end s e keep p =
    Returns-bind (keep from s (omega arith) p)
      λ _ t p'. for_range_inv P body n (from + 1) end t (omega arith) keep p'

pub Stops-mono :
    {S A : Type 0} {P Q : Stop → S → Type 0} {o : Outcome S A}
    → Stops P o
    → ((e : Stop) (s : S) → P e s → Q e s)
    → Stops Q o
Stops-mono (stops p) f = stops (f _ _ p)

-- What comes after it is not run.
pub Stops-bind :
    {S A B : Type 0} {P : Stop → S → Type 0} {r : Outcome S A} (k : A → M S B)
    → Stops P r
    → Stops P (and_then r k)
Stops-bind k (stops p) = stops p

-- What does not return comes after what does.
pub Returns-then :
    {S A B : Type 0} {P : A → S → Type 0} {Q : Stop → S → Type 0} {r : Outcome S A} {k : A → M S B}
    → Returns P r
    → ((a : A) (s : S) → P a s → Stops Q (k a s))
    → Stops Q (and_then r k)
Returns-then (returns p) next = next _ _ p

-- The instruction and the state, with the equation.
pub Stops-eq :
    {S A : Type 0} {P : Stop → S → Type 0} {o : Outcome S A}
    → Stops P o
    → (e : Stop) × (s : S) × (o ≡ stop e s) × P e s
Stops-eq (stops {e} {s} p) = (e, s, refl, p)
