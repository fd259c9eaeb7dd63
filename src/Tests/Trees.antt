-- ===== src/Tests/Trees.antt =====
-- The end of a process with descendants, at a concrete state.
use os_fall_2021_project.Prelude.{
  ℕ, ◌≡◌, refl, true, false, [], ◌∷◌, arith, ◌==◌, if◌then◌else◌, has, without, drop_all,
}
use os_fall_2021_project.Machine.Word.{null}
use os_fall_2021_project.Machine.Outcome.{Stops, load_state, halted}
use os_fall_2021_project.Pcb.FreeList.{FreeList}
use os_fall_2021_project.Asl.Around.{entry}
use os_fall_2021_project.Nucleus.{Kernel}
use os_fall_2021_project.Nucleus.Exceptions.{terminate_process, tree_fuel}
use os_fall_2021_project.Nucleus.Invariant.{IsNucleus-frame}
use os_fall_2021_project.Nucleus.Live.{IsLive}
use os_fall_2021_project.Nucleus.Family.{Family, no_kin, kin, members_of}
use os_fall_2021_project.Nucleus.Terminate.{
  IsRunning, Exited, terminate_process-tree, terminate_process-last,
}
use os_fall_2021_project.Nucleus.Initial.{exc_code}
use os_fall_2021_project.Nucleus.Phases.{gen_exception_phase2}
use os_fall_2021_project.Nucleus.Death.{gen_exception_phase2-dies}
use os_fall_2021_project.Tests.Pcbs.{blank_state}
use os_fall_2021_project.Tests.Semaphores.{busy, five, busy-IsNucleus}

-- The exception is a reserved instruction, and the running pcb 9 has no support structure. Its first child is 5, which waits, and the first child
-- of that is 2, which is ready.
abbrev crowd : (ℕ → ℕ) → Kernel
crowd siblings = record busy {
  asl = record busy.asl {
    procs = record five {
      p_child = λ p. if p == 9 then 5 else if p == 5 then 2 else null;
      p_next_sib = siblings;
      p_support_struct = λ _. null;
    };
  };
  states = λ _. record blank_state { s_cause = 40 };
}

only_free : (b : ℕ) → has b (10 ∷ 11 ∷ []) ≡ true → has b (1 ∷ 2 ∷ 3 ∷ 5 ∷ 6 ∷ []) ≡ false
only_free b h = ground arith

crowd-IsLive :
    (siblings : ℕ → ℕ)
    → IsLive
        (crowd siblings)
        (1 ∷ 2 ∷ 3 ∷ [])
        (entry 1 4096 (5 ∷ 6 ∷ []) ∷ [])
        (2 ∷ [])
        (10 ∷ 11 ∷ [])
crowd-IsLive siblings = record {
  queues = IsNucleus-frame busy (crowd siblings) busy-IsNucleus refl refl (λ b. (refl, refl, refl));
  free_list = record {
    tail = refl;
    links = (refl, refl, (refl, refl));
    distinct = (refl, (refl, tt));
    valid = (refl, (refl, tt));
  };
  apart = only_free;
  unblocked = (refl, (refl, (refl, tt)));
}

-- The sibling of 5 is 1, which is ready.
abbrev few : Kernel
few = crowd (λ p. if p == 5 then 1 else null)

abbrev few_below : Family
few_below = kin 5 (kin 2 no_kin no_kin) (kin 1 no_kin no_kin)

few-IsRunning :
    IsRunning few
      (1 ∷ 2 ∷ 3 ∷ [])
      (entry 1 4096 (5 ∷ 6 ∷ []) ∷ [])
      (2 ∷ [])
      (10 ∷ 11 ∷ [])
      few_below
few-IsRunning = record {
  live = crowd-IsLive (λ p. if p == 5 then 1 else null);
  valid = refl;
  running = refl;
  awake = refl;
  family = (refl, refl, (refl, refl, refl, refl), (refl, refl, refl, refl));
  distinct = (refl, (refl, (refl, tt)));
  queued = λ b h. ground arith;
}

few_left : without (members_of few_below) (1 ∷ 2 ∷ 3 ∷ []) ≡ 3 ∷ []
unfolding drop_all
few_left = refl

terminate_process-tree_example :
    Stops
      (λ e s'.
        (e ≡ load_state blank_state)
        × (s'.current_proc ≡ 3)
        × Exited few (entry 1 4096 (5 ∷ 6 ∷ []) ∷ []) (10 ∷ 11 ∷ []) (2 ∷ 5 ∷ 1 ∷ []) [] s')
      (terminate_process tree_fuel 9 few)
terminate_process-tree_example =
    terminate_process-tree few few_below (1 ∷ 2 ∷ 3 ∷ []) 3 [] few-IsRunning few_left refl

-- The siblings of 5 are all other pcbs.
abbrev all : Kernel
all = crowd (λ p. if p == 5 then 1 else if p == 1 then 3 else if p == 3 then 6 else null)

abbrev all_below : Family
all_below = kin 5 (kin 2 no_kin no_kin) (kin 1 no_kin (kin 3 no_kin (kin 6 no_kin no_kin)))

all-IsRunning :
    IsRunning all
      (1 ∷ 2 ∷ 3 ∷ [])
      (entry 1 4096 (5 ∷ 6 ∷ []) ∷ [])
      (2 ∷ [])
      (10 ∷ 11 ∷ [])
      all_below
all-IsRunning = record {
  live = crowd-IsLive (λ p. if p == 5 then 1 else if p == 1 then 3 else if p == 3 then 6 else null);
  valid = refl;
  running = refl;
  awake = refl;
  family = (
    refl,
    refl,
    (refl, refl, refl, refl),
    (refl, refl, refl, (refl, refl, refl, (refl, refl, refl, refl))),
  );
  distinct = (refl, (refl, (refl, (refl, (refl, tt)))));
  queued = λ b h. ground arith;
}

none_left : without (members_of all_below) (1 ∷ 2 ∷ 3 ∷ []) ≡ []
unfolding drop_all
none_left = refl

terminate_process-last_example :
    Stops
      (λ e s'.
        (e ≡ halted)
        × (s'.process_count ≡ 0)
        × FreeList s'.asl.procs (10 ∷ 11 ∷ 2 ∷ 5 ∷ 1 ∷ 3 ∷ 6 ∷ []))
      (terminate_process tree_fuel 9 all)
terminate_process-last_example =
    terminate_process-last all all_below (1 ∷ 2 ∷ 3 ∷ []) all-IsRunning none_left refl

gen_exception_phase2-dies_example :
    Stops
      (λ e s'.
        (e ≡ load_state blank_state)
        × (s'.current_proc ≡ 3)
        × Exited few (entry 1 4096 (5 ∷ 6 ∷ []) ∷ []) (10 ∷ 11 ∷ []) (2 ∷ 5 ∷ 1 ∷ []) [] s')
      (gen_exception_phase2 few)
unfolding exc_code
gen_exception_phase2-dies_example =
    gen_exception_phase2-dies few few_below (1 ∷ 2 ∷ 3 ∷ []) 3 [] refl refl few-IsRunning few_left
      refl
