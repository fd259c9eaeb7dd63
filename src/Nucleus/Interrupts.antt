-- ===== src/Nucleus/Interrupts.antt =====
-- interrupts.c of phase 3 (phase 2 has the same text).
use Prim.Native.Nat.{bit_and}
use os_fall_2021_project.Prelude.{
  ℕ, zero, suc, ◌+◌, ◌-◌, ◌*◌, not, ◌==◌, if◌then◌else◌, update, Option, none, some,
}
use os_fall_2021_project.Machine.Word.{max_proc, add32, sub32, is_nonpositive}
use os_fall_2021_project.Machine.Types.{set_reg, v0}
use os_fall_2021_project.Machine.Outcome.{fault, out_of_fuel, pure, ◌>>=◌, ◌>>◌, get, modify}
use os_fall_2021_project.Pcb
use os_fall_2021_project.Pcb.{mk_empty_proc_q}
use os_fall_2021_project.Asl.{remove_blocked}
use os_fall_2021_project.Nucleus.{
  K, Device, on_asl, on_procs, except_state, set_mem, device_sem, clock_sem, has_bits, stck, ldit,
  set_timer, time_slice, it_second,
}
use os_fall_2021_project.Nucleus.Scheduler.{switch_to, scheduler}
use os_fall_2021_project.Nucleus.Exceptions.{save_current, set_current, make_ready, charge_time}

-- The chain of tests on `devNoMap`, with the constants of h/const.h that it assigns. `none` means
-- that no bit is set, where the C variable has no value.
unfoldable pub dev_no_of : ℕ → Option ℕ
dev_no_of map =
    if has_bits map 0x01
    then some 0
    else if has_bits map 0x02
    then some 2
    else if has_bits map 0x04
    then some 1
    else if has_bits map 0x08
    then some 3
    else if has_bits map 0x10
    then some 4
    else if has_bits map 0x20
    then some 5
    else if has_bits map 0x40
    then some 6
    else if has_bits map 0x80
    then some 7
    else none

abbrev pub set_dev_reg : ℕ → Device → K (Unit {0})
set_dev_reg i d = modify (λ s. record s { hw = record s.hw { dev_reg = update s.hw.dev_reg i d } })

-- The acknowledgement: the status code, and the index of the device semaphore.
unfoldable pub acknowledge : (line_no dev_index : ℕ) → K (ℕ × ℕ)
acknowledge line_no dev_index = do
  s ← get
  let d = s.hw.dev_reg dev_index
  if line_no == 7
      then (if not (bit_and d.d_data0 0xff == 1)
          then (do
            set_dev_reg dev_index (record d { d_data1 = 1 })
            pure (bit_and d.d_data0 0xff, dev_index))
          else (do
            set_dev_reg dev_index (record d { d_command = 1 })
            pure (bit_and d.d_status 0xff, dev_index + 8)))
      else (do set_dev_reg dev_index (record d { d_command = 1 }); pure (d.d_status, dev_index))

-- The V operation on the device semaphore.
unfoldable pub signal_device : (status_code dev_index : ℕ) → K (Unit {0})
unfolding add32 sub32 make_ready
signal_device status_code dev_index = do
  s ← get
  let sem = device_sem s dev_index
  set_mem sem (add32 (s.mem sem) 1)
  if not (is_nonpositive (add32 (s.mem sem) 1)) then pure tt else do
    p ← on_asl (remove_blocked sem)
    if p == mk_empty_proc_q then pure tt else do
      modify (λ t. record t { soft_block_count = sub32 t.soft_block_count 1 })
      st ← on_procs (Pcb.load (λ s. s.p_s) p)
      on_procs (Pcb.store (λ s. record s { p_s = update s.p_s p (set_reg st v0 status_code) }) p)
      make_ready p

unfoldable pub non_timer_interrupt : ℕ → K (Unit {0})
unfolding dev_no_of
non_timer_interrupt line_no = do
  s ← get
  dev_no ← elim (dev_no_of (s.hw.interrupt_dev (line_no - 3))) [
    | none ↦ (λ _. fault)
    | some n ↦ pure n
  ]
  (status_code, dev_index) ← acknowledge line_no ((line_no - 3) * 8 + dev_no)
  signal_device status_code dev_index
  t ← get
  if t.current_proc == mk_empty_proc_q then scheduler else pure tt
  save_current
  switch_to t.current_proc

unfoldable pub plt_interrupt : K (Unit {0})
unfolding charge_time make_ready set_timer
plt_interrupt = do
  stop_tod ← stck
  s ← get
  if s.current_proc == mk_empty_proc_q then pure tt else do
    save_current
    charge_time stop_tod
    make_ready s.current_proc
    set_current mk_empty_proc_q
  now ← stck
  modify (λ t. record t { start_tod = now })
  set_timer time_slice
  scheduler

-- `while(p != mkEmptyProcQ()) …`; the clock queue holds at most `max_proc` pcbs.
unfoldable pub release_loop : ℕ → (p : ℕ) → K (Unit {0})
unfolding sub32 make_ready clock_sem
release_loop zero p = λ _. out_of_fuel
release_loop (suc fuel) p = if p == mk_empty_proc_q then pure tt else do
  make_ready p
  modify (λ t. record t { soft_block_count = sub32 t.soft_block_count 1 })
  s ← get
  next ← on_asl (remove_blocked (clock_sem s))
  release_loop fuel next

unfoldable pub it_interrupt : K (Unit {0})
unfolding ldit release_loop
it_interrupt = do
  ldit it_second
  s ← get
  p ← on_asl (remove_blocked (clock_sem s))
  release_loop (max_proc + 1) p
  set_mem (clock_sem s) 0
  t ← get
  if t.current_proc == mk_empty_proc_q then scheduler else pure tt
  save_current
  make_ready t.current_proc
  scheduler

-- The lines in the order of the tests.
unfoldable pub interrupt_handler : K (Unit {0})
interrupt_handler = do
  s ← get
  let cause = (except_state s).s_cause
  if has_bits cause 0x0200 then plt_interrupt else pure tt
  if has_bits cause 0x0400 then it_interrupt else pure tt
  if has_bits cause 0x0800 then non_timer_interrupt 3 else pure tt
  if has_bits cause 0x2000 then non_timer_interrupt 5 else pure tt
  if has_bits cause 0x1000 then non_timer_interrupt 4 else pure tt
  if has_bits cause 0x4000 then non_timer_interrupt 6 else pure tt
  if has_bits cause 0x8000 then non_timer_interrupt 7 else pure tt
