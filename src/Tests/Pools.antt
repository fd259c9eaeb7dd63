-- ===== src/Tests/Pools.antt =====
-- The theorems about the swap pool at concrete states.
use os_fall_2021_project.Prelude.{
  ℕ, ◌<◌, ◌≡◌, refl, Bool, ◌==◌, if◌then◌else◌, none, some, arith, Bool-cases, inl, inr, ap, ◌∙◌,
}
use os_fall_2021_project.Machine.Outcome.{Stops, stops, returns, pure, stop, halted}
use os_fall_2021_project.Support.{Level, Syscall}
use os_fall_2021_project.Support.InitProc.{test, uproc_max}
use os_fall_2021_project.Support.Vm.{missing_no, pool_size, tlb_exception_handler}
use os_fall_2021_project.Support.Pool.{IsPool}
use os_fall_2021_project.Support.Paging.{Resumes, tlb_exception_handler-IsPool}
use os_fall_2021_project.Support.Serves.{Keeps, Serves}
use os_fall_2021_project.Support.PoolInit.{started, test-IsPool}
use os_fall_2021_project.Tests.Supports.{paged_support, prompt, level}

-- The process at 7 has its page 2 in the frame 1, and misses its page 3.
abbrev in_step : Level
in_step = record level {
  supports = λ _. record paged_support {
    sup_private_pg_tbl = λ j. record { entry_hi = 0; entry_lo = if j == 2 then 0x1600 else 0x400 };
  };
  swap_pool = λ i.
      if i == 1
      then record { id = 1; page_no = 2; pgptr = some (7, 2) }
      else record { id = 0xffff_ffff; page_no = 0; pgptr = none };
}

abbrev only_7 : ℕ → Bool
only_7 b = b == 7

in_step-IsPool : IsPool only_7 in_step.supports in_step.swap_pool
in_step-IsPool = record {
  held = λ i hi busy. elim (Bool-cases (i == 1)) [
    | inl here ↦
        let is : i ≡ 1 = ground arith in
        rw is (record {
          owner = 7;
          page = 2;
          pgptr = refl;
          known = refl;
          id = refl;
          page_no = refl;
          entry = refl;
        })
    | inr ne ↦ absurd (ground (arith, busy, ne))
  ];
  mapped = λ o page known hp valid. elim (Bool-cases (page == 2)) [
    | inl two ↦
        let owner : 7 ≡ o = ground arith in
        let second : 2 ≡ page = ground arith in
        record {
          frame = 1;
          below = omega arith;
          taken = refl;
          names = ap (λ x. some (x, 2)) owner ∙ ap (λ x. some (o, x)) second;
        }
    | inr ne ↦ absurd (ground (arith, valid, ne))
  ];
}

-- A SYSCALL that returns at once serves the process at 7.
same : (t : Level) → Keeps 7 t t
same t = record {
  pool = refl;
  victim = refl;
  link = refl;
  asid = λ o. refl;
  tables = λ o. refl;
  own = refl;
}

prompt-Serves : Serves only_7 7 prompt
prompt-Serves = record {
  supported = λ t. returns (refl, same t);
  enters = λ t pool missing.
      returns (record { pool = pool; asid = refl; own = refl; missing = missing });
  reads = λ t told. returns (same t);
  writes = λ t i hi busy told. returns (refl, same t);
  leaves = λ t. returns (same t, refl);
}

tlb_exception_handler-IsPool_example :
    Stops
      (λ e t.
        (t.victim < pool_size) × Resumes only_7 7 t.victim 3 (paged_support.sup_except_state 0) e t)
      (tlb_exception_handler prompt (pure tt) in_step)
unfolding missing_no
tlb_exception_handler-IsPool_example =
    tlb_exception_handler-IsPool (pure tt) in_step prompt-Serves in_step-IsPool refl refl refl refl

-- Each system call but SYS2 returns at once.
abbrev once : Syscall
once n a b c = if n == 2 then (λ t. stop halted t) else pure 1

test-IsPool_example :
    Stops (λ _ t. IsPool (started level.link uproc_max) t.supports t.swap_pool) (test once level)
test-IsPool_example =
    test-IsPool once level (λ i t below kept. returns kept) (λ i t below kept. returns kept)
      (λ t kept. stops kept)
