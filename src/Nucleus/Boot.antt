-- ===== src/Nucleus/Boot.antt =====
-- `main`: the nucleus starts with empty queues and runs the first process.
use native.Mathlib.Nat.{eq-or-lt_of_le}
use mathlib.Core.Path.{subst, sym}
use os_fall_2021_project.Prelude.{
  inl, inr, ℕ, ◌+◌, ◌*◌, ◌%◌, ◌^◌, ◌≤◌, ◌<◌, ◌≡◌, refl, true, false, ◌||◌, List, [], ◌∷◌, arith,
  ◌==◌, update, update_self, ap, ◌∙◌,
}
use os_fall_2021_project.Machine.Word.{null, add32, max_proc}
use os_fall_2021_project.Machine.Types.{State}
use os_fall_2021_project.Machine.Outcome.{
  Stop, load_state, Stops, Stops-mono, ◌>>◌, Returns, returns, Returns-eq, for_range_inv,
}
use os_fall_2021_project.Pcb.{mk_empty_proc_q}
use os_fall_2021_project.Pcb.FreeList.{FreeList, up_to, init_pcbs-FreeList}
use os_fall_2021_project.Asl.Entries.{IsAsl}
use os_fall_2021_project.Asl.Init.{all_semds, init_asl-IsAsl}
use os_fall_2021_project.Nucleus.{Kernel, device_sem, div_signed, sem_count, stck, ldit, it_second}
use os_fall_2021_project.Nucleus.Scheduler.{state_copy, scheduler}
use os_fall_2021_project.Nucleus.Initial.{main, init_globals, start_first, set_pass_up_vector}
use os_fall_2021_project.Nucleus.Invariant.{IsNucleus}
use os_fall_2021_project.Nucleus.First.{first_state, start_first-ready, run_first}

-- No process, and the device semaphores at 0.
record Reset (s : Kernel) (n : ℕ) (t : Kernel) : Type 0 where
  zeros : (i : ℕ) → i < n → t.mem (device_sem s i) ≡ 0
  rest : t ≡ record s {
    process_count = 0;
    soft_block_count = 0;
    ready_q = null;
    current_proc = null;
    mem = t.mem;
  }

update-zero :
    (a m : ℕ → ℕ) (i j : ℕ) → (j < i → m (a j) ≡ 0) → j < i + 1 → update m (a i) 0 (a j) ≡ 0
update-zero a m i j below h =
    let le : j ≤ i = omega (arith, h) in
    elim (eq-or-lt_of_le le) [
      | inl same ↦ rw same (update_self m (a i) 0)
      | inr lt ↦ let old = below lt in ground (arith, old)
    ]

init_globals-Reset : (s : Kernel) → Returns (λ _ t. Reset s sem_count t) (init_globals s)
unfolding init_globals mk_empty_proc_q device_sem
init_globals-Reset s =
    for_range_inv (λ i t. Reset s i t) _ sem_count 0 sem_count _ refl
      (λ i t lt r. returns (record {
        zeros = λ j h.
            subst (λ a. update t.mem a 0 (device_sem s j) ≡ 0)
              (sym (ap (λ (u : Kernel). device_sem u i) r.rest))
              (update-zero (device_sem s) t.mem i j (r.zeros j) h);
        rest = ap (λ (u : Kernel). record u { mem = update t.mem (device_sem t i) 0 }) r.rest;
      }))
      (record { zeros = λ i lt. absurd (omega (arith, lt)); rest = refl })

-- All pcbs but the first.
abbrev later : List ℕ
later = 3 ∷ 4 ∷ 5 ∷ 6 ∷ 7 ∷ 8 ∷ 9 ∷ 10 ∷ 11 ∷ 12 ∷ 13 ∷ 14 ∷ 15 ∷ 16 ∷ 17 ∷ 18 ∷ 19 ∷ 20 ∷ []

abbrev pub others : List ℕ
others = 2 ∷ later

-- What `main` leaves to the first process: all queues empty, all pcbs but its own free, no semaphore
-- descriptor in use and the device semaphores at 0.
pub record Booted (s : Kernel) (garbage : State) (e : Stop) (s' : Kernel) : Type 0 where
  pub loads : e ≡ load_state (state_copy (first_state s garbage) (s.asl.procs.p_s 1))
  pub queues : IsNucleus s' [] [] all_semds
  pub free : FreeList s'.asl.procs others
  pub runs : s'.current_proc ≡ 1
  pub count : s'.process_count ≡ 1
  pub blocked : s'.soft_block_count ≡ 0
  pub zeros : (i : ℕ) → i < sem_count → s'.mem (device_sem s i) ≡ 0
  pub interval : s'.hw.interval_timer ≡ it_second * s.hw.timescale % 2 ^ 32

after_globals :
    (s t : Kernel) (garbage : State)
    → Reset s sem_count t
    → IsAsl s.asl [] all_semds
    → FreeList s.asl.procs (up_to max_proc)
    → (s.hw.timescale == 0) ≡ false
    → Stops
        (λ e s'. Booted s garbage e s' × (s'.hw.pass_up_vector ≡ s.hw.pass_up_vector))
        ((ldit it_second >> (start_first garbage >> scheduler)) t)
unfolding ldit up_to add32
after_globals s t garbage reset asl free scale =
    let t1 : Kernel = record t {
      hw = record t.hw { interval_timer = it_second * t.hw.timescale % 2 ^ 32 };
    } in
    let procs : t.asl ≡ s.asl = ap (λ v. v.asl) reset.rest in
    let inv : IsNucleus t1 [] [] all_semds = record {
      ready_queue = record {
        tail = ap (λ v. v.ready_q) reset.rest;
        links = tt;
        distinct = tt;
        valid = tt;
      };
      asl = subst (λ a. IsAsl a [] all_semds) (sym procs) asl;
      apart = tt;
    } in
    let (u, t2, start, (inv2, free2, state, rest)) = Returns-eq (
      start_first-ready t1 garbage 1 2 later inv
        (subst (λ a. FreeList a.procs (1 ∷ others)) (sym procs) free)) in
    let scale2 : (t2.hw.timescale == 0) ≡ false =
      ap (λ v. v.hw.timescale == 0) rest ∙ ap (λ v. v.hw.timescale == 0) reset.rest ∙ scale in
    simp start (
      Stops-mono (run_first t2 1 others inv2 free2 refl scale2)
        λ e s' (loads, queues, left, runs, count, blocked, mem, interval, vector). (
          record {
            loads =
                loads
                ∙ ap load_state state
                ∙ ap (λ v. load_state (state_copy (first_state v garbage) (v.asl.procs.p_s 1)))
                    reset.rest;
            queues = queues;
            free = left;
            runs = runs;
            count =
                count
                ∙ ap (λ v. v.process_count) rest
                ∙ ap (λ v. add32 v.process_count 1) reset.rest;
            blocked =
                blocked
                ∙ ap (λ v. v.soft_block_count) rest
                ∙ ap (λ v. v.soft_block_count) reset.rest;
            zeros =
                λ i h. ap (λ m. m (device_sem s i)) (mem ∙ ap (λ v. v.mem) rest) ∙ reset.zeros i h;
            interval =
                interval
                ∙ ap (λ v. v.hw.interval_timer) rest
                ∙ ap (λ v. it_second * v.hw.timescale % 2 ^ 32) reset.rest;
          },
          vector ∙ ap (λ v. v.hw.pass_up_vector) rest ∙ ap (λ v. v.hw.pass_up_vector) reset.rest,
        ))

-- `main`, in static storage whose last semaphore descriptor has no successor and with a clock that has a
-- time scale, loads the first process, whose state starts at `test` with the stack at the top of memory;
-- its pcb is the first of the table.
pub main-starts :
    (s : Kernel) (garbage : State)
    → (s.asl.semds.s_next 20 == null || s.asl.semds.s_next 20 == 0) ≡ true
    → (s.hw.timescale == 0) ≡ false
    → Stops
        (λ e s'.
          Booted s garbage e s'
          × (s'.hw.pass_up_vector ≡ record {
            tlb_refll_handler = s.link.u_tlb_refill_handler;
            tlb_refll_stack_ptr = 0x2000_1000;
            exception_handler = s.link.gen_exception_handler;
            exception_stack_ptr = 0x2000_1000;
          }))
        (main garbage s)
unfolding main set_pass_up_vector stck device_sem
main-starts s garbage last scale =
    let (u, p1, pcbs, (free, same)) = Returns-eq (init_pcbs-FreeList s.asl.procs) in
    let (u', d1, semds, asl) = Returns-eq (init_asl-IsAsl (record s.asl { procs = p1 }) last) in
    let s2 : Kernel = record s {
      asl = record { semds = d1; procs = p1 };
      start_tod = div_signed (s.hw.todlo s.hw.tod_reads) s.hw.timescale;
      hw = record s.hw {
        tod_reads = s.hw.tod_reads + 1;
        pass_up_vector = record {
          tlb_refll_handler = s.link.u_tlb_refill_handler;
          tlb_refll_stack_ptr = 0x2000_1000;
          exception_handler = s.link.gen_exception_handler;
          exception_stack_ptr = 0x2000_1000;
        };
      };
    } in
    let (u2, t, globals, reset) = Returns-eq (init_globals-Reset s2) in
    let states : p1.p_s ≡ s.asl.procs.p_s = ap (λ v. v.p_s) same in
    simp (scale, pcbs, semds, globals)
      (Stops-mono (after_globals s2 t garbage reset asl free scale) λ e s' (booted, vector). (
        record {
          loads =
              booted.loads ∙ ap (λ m. load_state (state_copy (first_state s garbage) (m 1))) states;
          queues = booted.queues;
          free = booted.free;
          runs = booted.runs;
          count = booted.count;
          blocked = booted.blocked;
          zeros = booted.zeros;
          interval = booted.interval;
        },
        vector,
      ))
