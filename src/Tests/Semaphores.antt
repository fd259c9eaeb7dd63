-- ===== src/Tests/Semaphores.antt =====
-- The theorems about the queues of the nucleus at a concrete state.
use os_fall_2021_project.Prelude.{◌≡◌, refl, [], ◌∷◌, arith, ◌==◌, if◌then◌else◌, update}
use os_fall_2021_project.Machine.Word.{null, add32, sub32}
use os_fall_2021_project.Machine.Outcome.{Stops, load_state}
use os_fall_2021_project.Machine.Types.{set_reg, v0}
use os_fall_2021_project.Pcb.{Procs}
use os_fall_2021_project.Pcb.Seg.{last}
use os_fall_2021_project.Asl.Around.{entry}
use os_fall_2021_project.Nucleus.{time_slice, Kernel, except_state, clock_sem, device_sem}
use os_fall_2021_project.Nucleus.Scheduler.{state_copy}
use os_fall_2021_project.Nucleus.Exceptions.{
  passeren, create_process, verhogen, wait_for_clock, wait_for_device, dev_sem_index,
}
use os_fall_2021_project.Nucleus.Interrupts.{it_interrupt, plt_interrupt, non_timer_interrupt}
use os_fall_2021_project.Nucleus.Invariant.{IsNucleus, IsNucleus-frame}
use os_fall_2021_project.Nucleus.Semaphores.{minus, behind_call, verhogen-wakes, passeren-waits}
use os_fall_2021_project.Nucleus.Preempt.{plt_interrupt-rotates}
use os_fall_2021_project.Nucleus.Waiting.{
  reading, SoftBlocked, wait_for_clock-waits, wait_for_device-waits,
}
use os_fall_2021_project.Nucleus.Devices.{lowest_dev, swap_1_2}
use os_fall_2021_project.Nucleus.Completion.{resumed, non_timer_interrupt-completes}
use os_fall_2021_project.Pcb.FreeList.{FreeList}
use os_fall_2021_project.Nucleus.Create.{Created, create_process-ready}
use os_fall_2021_project.Nucleus.Clock.{it_interrupt-releases}
use os_fall_2021_project.Tests.Pcbs.{blank_state, three}
use os_fall_2021_project.Tests.Asls.{two_wait}
use os_fall_2021_project.Tests.Kernels.{three_ready}

-- The pcbs 1, 2 and 3 are ready, 5 and 6 wait, 10 and 11 are free.
abbrev pub five : Procs
five = record three {
  p_next = λ p.
      if p == 10
      then 11
      else if p == 11
      then 10
      else if p == 5
      then 6
      else if p == 6
      then 5
      else three.p_next p;
  p_prev = λ p.
      if p == 10
      then 11
      else if p == 11
      then 10
      else if p == 5
      then 6
      else if p == 6
      then 5
      else three.p_prev p;
  p_sem_add = λ p. if p == 5 then 4096 else if p == 6 then 4096 else null;
  p_child = λ _. null;
  pcb_list_h = 11;
}

-- They wait on the semaphore at 4096, which is that of the clock; the pcb 9 runs.
abbrev pub busy : Kernel
busy = record three_ready {
  asl = record { semds = two_wait.semds; procs = five };
  process_count = 6;
  soft_block_count = 2;
  current_proc = 9;
  mem = λ a. if a == 4096 then 4294967294 else 0;
  states = λ _. record blank_state { s_reg = λ _. 4096 };
  link = record three_ready.link { device_sema4s = 3904 };
}

pub busy-IsNucleus : IsNucleus busy (1 ∷ 2 ∷ 3 ∷ []) (entry 1 4096 (5 ∷ 6 ∷ []) ∷ []) (2 ∷ [])
unfolding last
busy-IsNucleus = record {
  ready_queue = record {
    tail = refl;
    links = (refl, refl, (refl, refl, (refl, refl)));
    distinct = (refl, (refl, (refl, tt)));
    valid = (refl, (refl, (refl, tt)));
  };
  asl = record {
    head = refl;
    run = (
      refl,
      record {
        key = refl;
        queued = record {
          tail = refl;
          links = (refl, refl, (refl, refl));
          distinct = (refl, (refl, tt));
          valid = (refl, (refl, tt));
        };
        busy = cc;
        waits = (refl, (refl, tt));
      },
      tt,
    );
    end = refl;
    top = refl;
    sorted = (omega arith, omega arith, tt);
    free = (refl, refl);
    distinct = (refl, (refl, tt));
    valid = (refl, (refl, tt));
    apart = (refl, (refl, tt));
  };
  apart = (refl, (refl, (refl, (refl, (refl, tt)))));
}

verhogen-wakes_example :
    Stops
      (λ e s'.
        (e
          ≡ load_state (state_copy (behind_call (set_reg (except_state busy) v0 4096)) blank_state))
        × (s'.current_proc ≡ 9)
        × IsNucleus s' (1 ∷ 2 ∷ 3 ∷ 5 ∷ []) (entry 1 4096 (6 ∷ []) ∷ []) (2 ∷ [])
        × (s'.mem ≡ update busy.mem 4096 (minus 1)))
      (verhogen busy)
unfolding sub32
verhogen-wakes_example =
    verhogen-wakes busy (1 ∷ 2 ∷ 3 ∷ []) [] 1 4096 5 (6 ∷ []) [] (2 ∷ []) busy-IsNucleus refl refl
      refl

passeren-waits_example :
    Stops
      (λ e s'.
        (e ≡ load_state blank_state)
        × (s'.current_proc ≡ 1)
        × IsNucleus s' (2 ∷ 3 ∷ []) (entry 1 4096 (5 ∷ 6 ∷ 9 ∷ []) ∷ []) (2 ∷ [])
        × (s'.mem ≡ update busy.mem 4096 (minus 3))
        × (s'.asl.procs.p_s 9 ≡ state_copy (behind_call (except_state busy)) blank_state))
      (passeren busy)
unfolding sub32
passeren-waits_example =
    passeren-waits busy 1 (2 ∷ 3 ∷ []) [] 1 4096 (5 ∷ 6 ∷ []) [] (2 ∷ []) busy-IsNucleus
      (omega arith, omega arith, tt) refl refl refl refl refl

it_interrupt-releases_example :
    Stops
      (λ e s'.
        (e ≡ load_state (s'.asl.procs.p_s 1))
        × (s'.current_proc ≡ 1)
        × IsNucleus s' (2 ∷ 3 ∷ 5 ∷ 6 ∷ 9 ∷ []) [] (1 ∷ 2 ∷ [])
        × (s'.mem ≡ update busy.mem 4096 0)
        × (s'.soft_block_count ≡ sub32 2 2)
        × (s'.asl.procs.p_s ≡ update five.p_s 9 (state_copy (except_state busy) blank_state)))
      (it_interrupt busy)
unfolding clock_sem device_sem
it_interrupt-releases_example =
    it_interrupt-releases busy (1 ∷ 2 ∷ 3 ∷ []) [] 1 4096 (5 ∷ 6 ∷ []) [] (2 ∷ []) 1
      (2 ∷ 3 ∷ 5 ∷ 6 ∷ 9 ∷ []) (omega arith, omega arith, tt) busy-IsNucleus refl (omega arith) refl
      refl refl refl

wait_for_clock-waits_example :
    Stops
      (λ e s'.
        (e ≡ load_state blank_state)
        × SoftBlocked busy 1 (2 ∷ 3 ∷ []) [] 1 4096 (5 ∷ 6 ∷ []) [] (2 ∷ []) s')
      (wait_for_clock busy)
unfolding clock_sem device_sem sub32
wait_for_clock-waits_example =
    wait_for_clock-waits busy 1 (2 ∷ 3 ∷ []) [] 1 4096 (5 ∷ 6 ∷ []) [] (2 ∷ []) busy-IsNucleus
      (omega arith, omega arith, tt) refl refl refl refl refl

-- The semaphore is that of the device 0 of the line 3, for which the running process asks, and which
-- interrupts.
abbrev asking : Kernel
asking = record busy {
  states = λ _. record blank_state { s_reg = λ i. if i == 4 then 3 else 0 };
  hw = record busy.hw { interrupt_dev = λ _. 1 };
  link = record busy.link { device_sema4s = 4096 };
}

asking-IsNucleus : IsNucleus asking (1 ∷ 2 ∷ 3 ∷ []) (entry 1 4096 (5 ∷ 6 ∷ []) ∷ []) (2 ∷ [])
asking-IsNucleus = IsNucleus-frame busy asking busy-IsNucleus refl refl (λ b. (refl, refl, refl))

wait_for_device-waits_example :
    Stops
      (λ e s'.
        (e ≡ load_state blank_state)
        × SoftBlocked asking 1 (2 ∷ 3 ∷ []) [] 1 4096 (5 ∷ 6 ∷ []) [] (2 ∷ []) s')
      (wait_for_device asking)
unfolding dev_sem_index device_sem sub32
wait_for_device-waits_example =
    wait_for_device-waits asking 1 (2 ∷ 3 ∷ []) [] 1 4096 (5 ∷ 6 ∷ []) [] (2 ∷ []) asking-IsNucleus
      (omega arith, omega arith, tt) refl refl refl refl refl

non_timer_interrupt-completes_example :
    Stops
      (λ e s'.
        (e ≡ load_state (s'.asl.procs.p_s 9))
        × (s'.current_proc ≡ 9)
        × IsNucleus s' (1 ∷ 2 ∷ 3 ∷ 5 ∷ []) (entry 1 4096 (6 ∷ []) ∷ []) (2 ∷ [])
        × (s'.mem ≡ update asking.mem 4096 (minus 1))
        × (s'.soft_block_count ≡ sub32 2 1)
        × (s'.asl.procs.p_s ≡ resumed asking 9 (update five.p_s 5 (set_reg blank_state v0 0)))
        × (s'.hw.dev_reg
            ≡ update asking.hw.dev_reg 0 (record (asking.hw.dev_reg 0) { d_command = 1 })))
      (non_timer_interrupt 3 asking)
unfolding lowest_dev swap_1_2 device_sem sub32
non_timer_interrupt-completes_example =
    non_timer_interrupt-completes asking (1 ∷ 2 ∷ 3 ∷ []) [] 1 4096 5 (6 ∷ []) [] (2 ∷ []) 3 0 refl
      refl asking-IsNucleus refl refl refl

busy-FreeList : FreeList five (10 ∷ 11 ∷ [])
busy-FreeList = record {
  tail = refl;
  links = (refl, refl, (refl, refl));
  distinct = (refl, (refl, tt));
  valid = (refl, (refl, tt));
}

create_process-ready_example :
    Stops
      (Created busy (1 ∷ 2 ∷ 3 ∷ []) 10 (11 ∷ []) [] (entry 1 4096 (5 ∷ 6 ∷ []) ∷ []) (2 ∷ []))
      (create_process busy)
create_process-ready_example =
    create_process-ready busy (1 ∷ 2 ∷ 3 ∷ []) 10 11 [] [] (entry 1 4096 (5 ∷ 6 ∷ []) ∷ []) (2 ∷ [])
      busy-IsNucleus busy-FreeList (refl, (refl, (refl, (refl, (refl, (refl, (refl, tt))))))) refl
      refl (record { chain = refl; distinct = tt; valid = tt }) refl

plt_interrupt-rotates_example :
    Stops
      (λ e s'.
        (e ≡ load_state (s'.asl.procs.p_s 1))
        × (s'.current_proc ≡ 1)
        × IsNucleus s' (2 ∷ 3 ∷ 9 ∷ []) (entry 1 4096 (5 ∷ 6 ∷ []) ∷ []) (2 ∷ [])
        × (s'.hw.local_timer ≡ time_slice)
        × (s'.process_count ≡ 6)
        × (s'.soft_block_count ≡ 2)
        × (s'.mem ≡ busy.mem)
        × (s'.asl.procs.p_s ≡ update five.p_s 9 (state_copy (except_state busy) blank_state))
        × (s'.asl.procs.p_time ≡ update five.p_time 9 (add32 0 (sub32 (reading busy) 0))))
      (plt_interrupt busy)
plt_interrupt-rotates_example =
    plt_interrupt-rotates busy (1 ∷ 2 ∷ 3 ∷ []) 1 (2 ∷ 3 ∷ 9 ∷ []) busy-IsNucleus refl refl refl
      refl
