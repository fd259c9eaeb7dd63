-- ===== src/Phase1/Blocked.antt =====
-- `insertBlocked` of phase 1 does what that of phase 3 does.
use os_fall_2021_project.Prelude.{ℕ, ◌≡◌, refl, Bool, true, false, arith, if◌then◌else◌}
use os_fall_2021_project.Machine.Outcome.{
  Outcome, ok, stop, fault, out_of_fuel, and_then, M, pure, embed, ◌>>=◌,
}
use os_fall_2021_project.Pcb
use os_fall_2021_project.Pcb.{Procs}
use os_fall_2021_project.Asl
use os_fall_2021_project.Asl.{Asl, Semds, on_semds, on_procs, traverse_asl, semd_alloc}
use os_fall_2021_project.Pcb.Free.{set_sem_add}
use os_fall_2021_project.Phase1.Pcb.{insert_proc_q}
use os_fall_2021_project.Phase1.Asl.{enqueue, insert_blocked}
use os_fall_2021_project.Phase1.Turn.{turn, turned, insert_proc_q-turned}

abbrev pub turn_asl : Asl → Asl
turn_asl s = record s { procs = turn s.procs }

abbrev pub turned_asl : {A : Type 0} → Outcome Asl A → Outcome Asl A
turned_asl (ok a s) = ok a (turn_asl s)
turned_asl (stop e s) = stop e (turn_asl s)
turned_asl fault = fault
turned_asl out_of_fuel = out_of_fuel

-- Two programs that agree up to the turn.
data Agree {A : Type 0} (m n : M Asl A) : Type 0 where
  agree : ((s : Asl) → m s ≡ turned_asl (n (turn_asl s))) → Agree m n

Agree-eq : {A : Type 0} {m n : M Asl A} → Agree m n → (s : Asl) → m s ≡ turned_asl (n (turn_asl s))
Agree-eq (agree h) = h

module _ {A B : Type 0} {k l : A → M Asl B} where
  and_then-turned :
      ((a : A) → Agree (k a) (l a))
      → (o : Outcome Asl A) → and_then (turned_asl o) k ≡ turned_asl (and_then o l)
  and_then-turned r (ok a t) = Agree-eq (r a) (turn_asl t)
  and_then-turned r (stop e t) = refl
  and_then-turned r fault = refl
  and_then-turned r out_of_fuel = refl

  Agree-bind :
      {m n : M Asl A} → Agree m n → ((a : A) → Agree (k a) (l a)) → Agree (m >>= k) (n >>= l)
  Agree-bind {m} {n} h r = agree λ s. rw (Agree-eq h s) (and_then-turned r (n (turn_asl s)))

Agree-if :
    {A : Type 0} (b : Bool) {m n m' n' : M Asl A}
    → Agree m n
    → Agree m' n'
    → Agree (if b then m else m') (if b then n else n')
Agree-if true h h' = h
Agree-if false h h' = h'

Agree-pure : {A : Type 0} (a : A) → Agree (pure a) (pure a)
Agree-pure a = agree λ s. refl

-- Code over the descriptors does not see the links, and `insertProcQ` agrees.
embed-semds :
    {A : Type 0} (s : Asl) (o : Outcome Semds A)
    → embed (λ t d. record t { semds = d }) s o
      ≡ turned_asl (embed (λ t d. record t { semds = d }) (turn_asl s) o)
embed-semds s (ok a d) = refl
embed-semds s (stop e d) = refl
embed-semds s fault = refl
embed-semds s out_of_fuel = refl

Agree-semds : {A : Type 0} (m : M Semds A) → Agree (on_semds m) (on_semds m)
Agree-semds m = agree λ s. embed-semds s (m s.semds)

embed-procs :
    {A : Type 0} (s : Asl) (o : Outcome Procs A)
    → embed (λ t d. record t { procs = d }) s (turned o)
      ≡ turned_asl (embed (λ t d. record t { procs = d }) (turn_asl s) o)
embed-procs s (ok a d) = refl
embed-procs s (stop e d) = refl
embed-procs s fault = refl
embed-procs s out_of_fuel = refl

Agree-insert :
    (tp p : ℕ) → Agree (on_procs (insert_proc_q tp p)) (on_procs (Pcb.insert_proc_q tp p))
Agree-insert tp p = agree λ s.
    rw (insert_proc_q-turned tp p s.procs) (embed-procs s (Pcb.insert_proc_q tp p (turn s.procs)))

Agree-sem_add : (p k : ℕ) → Agree (on_procs (set_sem_add p k)) (on_procs (set_sem_add p k))
unfolding Pcb.store
Agree-sem_add p k = agree λ s. ground arith

enqueue-Agree : (k p temp : ℕ) → Agree (enqueue k p temp) (Asl.enqueue k p temp)
unfolding enqueue Asl.enqueue
enqueue-Agree k p temp =
    search (Agree-bind, Agree-semds, Agree-insert, Agree-sem_add, Agree-pure) depth 12

insert_blocked-Agree : (k p : ℕ) → Agree (insert_blocked k p) (Asl.insert_blocked k p)
unfolding insert_blocked Asl.insert_blocked
insert_blocked-Agree k p =
    search (Agree-bind, Agree-semds, Agree-if, enqueue-Agree, Agree-pure) depth 16

-- At any semaphore and pcb and in any state, faults included.
pub insert_blocked-turned :
    (k p : ℕ) (s : Asl) → insert_blocked k p s ≡ turned_asl (Asl.insert_blocked k p (turn_asl s))
insert_blocked-turned k p = Agree-eq (insert_blocked-Agree k p)
