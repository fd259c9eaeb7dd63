-- ===== src/Phase1/Turn.antt =====
-- The queues of phase 1 are those of phase 3 with `p_next` and `p_prev` turned round.
use os_fall_2021_project.Prelude.{ℕ, ◌≡◌, arith}
use os_fall_2021_project.Machine.Outcome.{Outcome, ok, stop, fault, out_of_fuel, Returns, returns}
use os_fall_2021_project.Pcb
use os_fall_2021_project.Pcb.{Procs}
use os_fall_2021_project.Phase1.Pcb.{insert_proc_q}

abbrev pub turn : Procs → Procs
turn s = record s { p_next = s.p_prev; p_prev = s.p_next }

-- The outcome, with the links of its state turned round.
abbrev pub turned : {A : Type 0} → Outcome Procs A → Outcome Procs A
turned (ok a s) = ok a (turn s)
turned (stop e s) = stop e (turn s)
turned fault = fault
turned out_of_fuel = out_of_fuel

pub Returns-turned :
    {A : Type 0} {P : A → Procs → Type 0} {o : Outcome Procs A}
    → Returns P o
    → Returns (λ a s. P a (turn s)) (turned o)
Returns-turned (returns p) = returns p

-- `insertProcQ` of phase 1 does the same, at any pointers and in any state, faults included.
pub insert_proc_q-turned :
    (tp p : ℕ) (s : Procs) → insert_proc_q tp p s ≡ turned (Pcb.insert_proc_q tp p (turn s))
unfolding insert_proc_q Pcb.insert_proc_q
insert_proc_q-turned tp p s = ground arith
