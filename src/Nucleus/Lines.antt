-- ===== src/Nucleus/Lines.antt =====
-- Which interrupt line is served where several are pending.
use os_fall_2021_project.Prelude.{
  ℕ, ◌*◌, ◌^◌, ◌≡◌, refl, ap, List, [], ◌∷◌, Option, none, some, ◌==◌, if◌then◌else◌, Bool-cases,
  inl, inr,
}
use os_fall_2021_project.Machine.Outcome.{Stop, stop, Stops, stops, Stops-eq, pure, ◌>>◌}
use os_fall_2021_project.Nucleus.{Kernel, K, except_state, has_bits}
use os_fall_2021_project.Nucleus.Interrupts.{
  plt_interrupt, it_interrupt, non_timer_interrupt, interrupt_handler,
}
use os_fall_2021_project.Nucleus.Initial.{gen_exception_handler, exc_code}
use os_fall_2021_project.Nucleus.Phases.{gen_exception_phase2}

-- The handler of a line.
abbrev pub serve : ℕ → K (Unit {0})
serve n = if n == 1 then plt_interrupt else if n == 2 then it_interrupt else non_timer_interrupt n

-- The first line of the list whose bit is set; the bit of the line `n` is 8 + n.
abbrev pub first_pending : (cause : ℕ) → List ℕ → Option ℕ
first_pending cause [] = none
first_pending cause (n ∷ ns) =
    if has_bits cause (256 * 2 ^ n) then some n else first_pending cause ns

abbrev pub lines : List ℕ
lines = 1 ∷ 2 ∷ 3 ∷ 5 ∷ 4 ∷ 6 ∷ 7 ∷ []

-- The tests of the lines, one after the other.
chain : (cause : ℕ) → List ℕ → K (Unit {0})
chain cause [] = pure tt
chain cause (n ∷ []) = if has_bits cause (256 * 2 ^ n) then serve n else pure tt
chain cause (n ∷ m ∷ ns) = do
  if has_bits cause (256 * 2 ^ n) then serve n else pure tt
  chain cause (m ∷ ns)

number : Option ℕ → ℕ
number none = 0
number (some n) = n

chain-first :
    (cause : ℕ) (ns : List ℕ) (s t : Kernel) (e : Stop) (n : ℕ)
    → first_pending cause ns ≡ some n
    → serve n s ≡ stop e t
    → chain cause ns s ≡ stop e t
unfolding chain number
chain-first cause [] s t e n first run = cc
chain-first cause (m ∷ []) s t e n first run = elim (Bool-cases (has_bits cause (256 * 2 ^ m))) [
  | inl set ↦ let same : m ≡ n = ap number (rw set at first) in rw (set, same) run
  | inr clear ↦ let none_left = rw clear at first in cc
]
chain-first cause (m ∷ l ∷ ns) s t e n first run =
    elim (Bool-cases (has_bits cause (256 * 2 ^ m))) [
      | inl set ↦ let same : m ≡ n = ap number (rw set at first) in rw (set, same) (rw run refl)
      | inr clear ↦ rw clear (chain-first cause (l ∷ ns) s t e n (rw clear at first) run)
    ]

-- On an interrupt only the first pending line is served, in the order 1, 2, 3, 5, 4, 6, 7, where its handler
-- does not return: whatever that handler ends with is what the exception ends with.
pub gen_exception_phase2-first_line :
    {P : Stop → Kernel → Type 0} (s : Kernel) (n : ℕ)
    → exc_code (except_state s) ≡ 0
    → first_pending (except_state s).s_cause lines ≡ some n
    → Stops P (serve n s)
    → Stops P (gen_exception_phase2 s)
unfolding gen_exception_phase2 gen_exception_handler interrupt_handler chain
gen_exception_phase2-first_line {P} s n code first served =
    let (e, t, run, p) = Stops-eq served in
    let handled : interrupt_handler s ≡ stop e t =
      chain-first (except_state s).s_cause lines s t e n first run in
    rw code (rw handled (stops p))
