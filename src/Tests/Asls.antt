-- ===== src/Tests/Asls.antt =====
-- The theorems about asl.c at concrete lists.
use os_fall_2021_project.Prelude.{
  drop_all, ℕ, List, arith, ◌≡◌, refl, true, false, [], ◌∷◌, ◌==◌, if◌then◌else◌,
}
use os_fall_2021_project.Machine.Word.{null}
use os_fall_2021_project.Machine.Outcome.{Returns}
use os_fall_2021_project.Asl.{Semds, Asl, init_asl, insert_blocked, remove_blocked, out_blocked}
use os_fall_2021_project.Asl.Entries.{Entry, Run, dummy_head, IsAsl}
use os_fall_2021_project.Asl.Around.{Spares, entry}
use os_fall_2021_project.Asl.Wait.{
  waiting_on, free_with, insert_blocked-waiting_on, remove_blocked-waiting_on,
  out_blocked-waiting_on,
}
use os_fall_2021_project.Asl.Init.{all_semds, init_asl-IsAsl}
use os_fall_2021_project.Asl.InsertNew.{insert_blocked-full}
use os_fall_2021_project.Pcb.Seg.{last}
use os_fall_2021_project.Tests.Pcbs.{blank}

abbrev pub blank_semds : Semds
blank_semds = record {
  s_next = λ _. 0;
  s_sem_add = λ _. 0;
  s_proc_q = λ _. 0;
  semd_free_h = 0;
  semd_h = 0;
}

abbrev blank_asl : Asl
blank_asl = record { semds = blank_semds; procs = blank }

-- The pcb 5 waits on the semaphore at 4096, whose descriptor is 1; the free list starts at `free`.
abbrev pub waiting : ℕ → Asl
waiting free = record {
  semds = record {
    s_next = λ d. if d == 21 then 1 else if d == 1 then 22 else null;
    s_sem_add = λ d. if d == 1 then 4096 else if d == 22 then null else 0;
    s_proc_q = λ d. if d == 1 then 5 else null;
    semd_free_h = free;
    semd_h = 21;
  };
  procs = record blank { p_next = λ _. 5; p_prev = λ _. 5; p_sem_add = λ _. 4096 };
}

abbrev waits_5 : List Entry
waits_5 = entry 1 4096 (5 ∷ []) ∷ []

waiting-Run : (free : ℕ) → Run (waiting free).semds (waiting free).procs dummy_head waits_5
waiting-Run free = (
  refl,
  record {
    key = refl;
    queued = record {
      tail = refl;
      links = (refl, refl);
      distinct = (refl, tt);
      valid = (refl, tt);
    };
    busy = cc;
    waits = (refl, tt);
  },
  tt,
)

waiting-IsAsl : IsAsl (waiting 2) waits_5 (2 ∷ [])
unfolding last
waiting-IsAsl = record {
  head = refl;
  run = waiting-Run 2;
  end = refl;
  top = refl;
  sorted = (omega arith, omega arith, tt);
  free = (refl, refl);
  distinct = (refl, (refl, tt));
  valid = (refl, (refl, tt));
  apart = (refl, tt);
}

no_free-IsAsl : IsAsl (waiting null) waits_5 []
unfolding last
no_free-IsAsl = record {
  head = refl;
  run = waiting-Run null;
  end = refl;
  top = refl;
  sorted = (omega arith, omega arith, tt);
  free = refl;
  distinct = (refl, tt);
  valid = (refl, tt);
  apart = (refl, tt);
}

init_asl-IsAsl_example :
    Returns
      (λ _ semds. IsAsl (record blank_asl { semds = semds }) [] all_semds)
      (init_asl blank_semds)
init_asl-IsAsl_example = init_asl-IsAsl blank_asl refl

insert_blocked-full_example :
    Returns
      (λ full s'. (full ≡ true) × IsAsl s' waits_5 [] × (s'.procs ≡ (waiting null).procs))
      (insert_blocked 8192 6 (waiting null))
insert_blocked-full_example = insert_blocked-full waits_5 8192 6 no_free-IsAsl (omega arith) refl

-- The pcbs 5 and 6 wait on that semaphore.
abbrev pub two_wait : Asl
two_wait = record (waiting 2) {
  semds = record (waiting 2).semds { s_proc_q = λ d. if d == 1 then 6 else null };
  procs = record (waiting 2).procs {
    p_next = λ p. if p == 5 then 6 else 5;
    p_prev = λ p. if p == 5 then 6 else 5;
  };
}

two_wait-IsAsl : IsAsl two_wait (entry 1 4096 (5 ∷ 6 ∷ []) ∷ []) (2 ∷ [])
unfolding last
two_wait-IsAsl = record {
  head = refl;
  run = (
    refl,
    record {
      key = refl;
      queued = record {
        tail = refl;
        links = (refl, refl, (refl, refl));
        distinct = (refl, (refl, tt));
        valid = (refl, (refl, tt));
      };
      busy = cc;
      waits = (refl, (refl, tt));
    },
    tt,
  );
  end = refl;
  top = refl;
  sorted = (omega arith, omega arith, tt);
  free = (refl, refl);
  distinct = (refl, (refl, tt));
  valid = (refl, (refl, tt));
  apart = (refl, (refl, tt));
}

insert_blocked-waiting_on_example :
    Returns
      (λ full s'.
        (full ≡ false)
        × IsAsl s' (entry 1 4096 (5 ∷ []) ∷ entry 2 8192 (6 ∷ []) ∷ []) []
        × Spares (6 ∷ []) (waiting 2).procs s'.procs)
      (insert_blocked 8192 6 (waiting 2))
insert_blocked-waiting_on_example =
    insert_blocked-waiting_on waits_5 2 8192 [] [] [] 6 waiting-IsAsl
      (omega arith, omega arith, (omega arith, omega arith, tt)) refl refl

remove_blocked-waiting_on_example :
    Returns
      (λ r s'.
        (r ≡ 5)
        × IsAsl s' (entry 1 4096 (6 ∷ []) ∷ []) (2 ∷ [])
        × (s'.procs.p_sem_add 5 ≡ null)
        × Spares (5 ∷ 6 ∷ []) two_wait.procs s'.procs)
      (remove_blocked 4096 two_wait)
remove_blocked-waiting_on_example = remove_blocked-waiting_on [] 1 4096 5 (6 ∷ []) [] two_wait-IsAsl

out_blocked-waiting_on_example :
    Returns
      (λ r s'.
        (r ≡ 6)
        × IsAsl s'
            (waiting_on [] 1 4096 (drop_all 6 (5 ∷ 6 ∷ [])) [])
            (free_with 1 (drop_all 6 (5 ∷ 6 ∷ [])) (2 ∷ []))
        × (s'.procs.p_sem_add 6 ≡ null)
        × Spares (5 ∷ 6 ∷ []) two_wait.procs s'.procs)
      (out_blocked 6 two_wait)
out_blocked-waiting_on_example =
    out_blocked-waiting_on [] 1 4096 6 (5 ∷ 6 ∷ []) [] two_wait-IsAsl refl
