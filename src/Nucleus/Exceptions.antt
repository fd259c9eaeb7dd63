-- ===== src/Nucleus/Exceptions.antt =====
-- exceptions.c: the nucleus system calls and pass up or die. The text is that of phase 3; phase 2
-- differs in the program trap handler, which is an argument here.
use os_fall_2021_project.Prelude.{
  ℕ, zero, suc, ◌+◌, ◌*◌, ◌%◌, ◌^◌, ◌&&◌, ◌||◌, not, ◌==◌, leb, if◌then◌else◌, update,
}
use os_fall_2021_project.Machine.Word.{
  null, max_proc, error_code, add32, sub32, is_negative, is_nonpositive,
}
use os_fall_2021_project.Machine.Types.{State, set_reg, v0, a1, a2, a3}
use os_fall_2021_project.Machine.Outcome.{
  load_context, ok, fault, out_of_fuel, pure, ◌>>=◌, ◌>>◌, get, modify,
}
use os_fall_2021_project.Pcb
use os_fall_2021_project.Pcb.{Procs, insert_proc_q, out_proc_q, mk_empty_proc_q}
use os_fall_2021_project.Pcb.Free.{alloc_pcb, free_pcb, set_sem_add, set_time, set_support_struct}
use os_fall_2021_project.Pcb.Tree.{empty_child, insert_child, remove_child, out_child}
use os_fall_2021_project.Asl.{insert_blocked, remove_blocked, out_blocked}
use os_fall_2021_project.Nucleus.{
  K, on_asl, on_procs, exit, except_state, set_except_state, set_mem, device_sem, clock_sem,
  word_len, kup_on, has_bits, stck,
}
use os_fall_2021_project.Nucleus.Scheduler.{state_copy, switch_to, scheduler}

-- `PGFAULTEXCEPT` and `GENERALEXCEPT`.
abbrev pub pg_fault_except : ℕ
pg_fault_except = 0

abbrev pub general_except : ℕ
general_except = 1

-- A register of the saved state, `oldState->s_pc += WORDLEN`, and a result in `s_v0`.
abbrev pub arg : ℕ → K ℕ
arg r s = ok ((except_state s).s_reg r) s

unfoldable pub advance_pc : K (Unit {0})
unfolding add32 set_except_state
advance_pc = set_except_state (λ st. record st { s_pc = add32 st.s_pc word_len })

unfoldable pub give_result : ℕ → K (Unit {0})
unfolding set_except_state
give_result v = set_except_state (λ st. set_reg st v0 v)

-- `stateCopy(source, &(p->p_s))`.
unfoldable pub copy_to_pcb : State → ℕ → K (Unit {0})
copy_to_pcb source p = do
  sink ← on_procs (Pcb.load (λ s. s.p_s) p)
  on_procs (Pcb.store (λ s. record s { p_s = update s.p_s p (state_copy source sink) }) p)

-- `stateCopy(oldState, &(currentProc->p_s))`.
unfoldable pub save_current : K (Unit {0})
unfolding copy_to_pcb
save_current = do s ← get; copy_to_pcb (except_state s) s.current_proc

abbrev pub set_current : ℕ → K (Unit {0})
set_current p = modify (λ s. record s { current_proc = p })

-- `insertProcQ(&readyQ, p)`.
unfoldable pub make_ready : ℕ → K (Unit {0})
make_ready p = do
  s ← get
  tp ← on_procs (insert_proc_q s.ready_q p)
  modify (λ t. record t { ready_q = tp })

-- `currentProc->p_time += (stopTod - startTod)`.
unfoldable pub charge_time : ℕ → K (Unit {0})
unfolding add32 sub32
charge_time stop_tod = do
  s ← get
  time ← on_procs (Pcb.load (λ s. s.p_time) s.current_proc)
  on_procs (set_time s.current_proc (add32 time (sub32 stop_tod s.start_tod)))

-- SYS1.
unfoldable pub create_process : K (Unit {0})
unfolding advance_pc give_result save_current copy_to_pcb make_ready add32
create_process = do
  new_proc ← on_procs alloc_pcb
  result ←
      (if new_proc == null then pure error_code else do
        modify (λ s. record s { process_count = add32 s.process_count 1 })
        s ← get
        copy_to_pcb (s.states ((except_state s).s_reg a1)) new_proc
        on_procs (set_support_struct new_proc ((except_state s).s_reg a2))
        on_procs (set_time new_proc 0)
        on_procs (set_sem_add new_proc null)
        on_procs (insert_child s.current_proc new_proc)
        make_ready new_proc
        pure 0)
  give_result result
  advance_pc
  s ← get
  if s.current_proc == null then scheduler else pure tt
  save_current
  switch_to s.current_proc

-- `while(emptyChild(current) == FALSE) terminateProcess(removeChild(current));`
unfoldable pub children_loop : ℕ → (ℕ → K (Unit {0})) → ℕ → K (Unit {0})
children_loop zero terminate current = λ _. out_of_fuel
children_loop (suc fuel) terminate current = do
  none_left ← on_procs (empty_child current)
  if none_left
      then pure tt
      else do terminate (← on_procs (remove_child current)); children_loop fuel terminate current

-- `processCount--` if a pcb was taken out.
unfoldable pub count_out : ℕ → K (Unit {0})
unfolding sub32 mk_empty_proc_q
count_out p =
    if p == mk_empty_proc_q
    then pure tt
    else modify (λ s. record s { process_count = sub32 s.process_count 1 })

-- `current` off the queue of its semaphore, or off the ready queue.
unfoldable pub unqueue : ℕ → K (Unit {0})
unfolding add32 sub32 count_out
unqueue current = do
  s ← get
  sem ← on_procs (Pcb.load (λ s. s.p_sem_add) current)
  if not (sem == null)
      then (do
        if leb (device_sem s 0) sem && leb sem (clock_sem s)
            then modify (λ t. record t { soft_block_count = sub32 t.soft_block_count 1 })
            else if sem == 0
            then (λ _. fault)
            else set_mem sem (add32 (s.mem sem) 1)
        count_out (← on_asl (out_blocked current)))
      else (do
        (p, tp) ← on_procs (out_proc_q s.ready_q current)
        modify (λ t. record t { ready_q = tp })
        count_out p)

-- SYS2. The fuel bounds the depth of the tree, and each loop has a round for each pcb.
unfoldable pub terminate_process : ℕ → ℕ → K (Unit {0})
unfolding sub32
terminate_process zero current = λ _. out_of_fuel
terminate_process (suc fuel) current = do
  children_loop (max_proc + 1) (terminate_process fuel) current
  unqueue current
  s ← get
  if not (current == s.current_proc) then pure tt else do
    childless ← on_procs (empty_child current)
    if childless then pure tt else do _ ← on_procs (out_child s.current_proc); pure tt
    set_current mk_empty_proc_q
    modify (λ t. record t { process_count = sub32 t.process_count 1 })
    scheduler
  on_procs (free_pcb current)

-- The depth of a tree of pcbs, and one more.
abbrev pub tree_fuel : ℕ
tree_fuel = 21

-- SYS3.
unfoldable pub passeren : K (Unit {0})
unfolding advance_pc save_current sub32
passeren = do
  sem ← arg a1
  if sem == 0
      then (λ _. fault)
      else modify (λ s. record s { mem = update s.mem sem (sub32 (s.mem sem) 1) })
  advance_pc
  save_current
  s ← get
  if is_negative (s.mem sem)
      then (do
        _ ← on_asl (insert_blocked sem s.current_proc)
        set_current mk_empty_proc_q
        scheduler)
      else pure tt
  t ← get
  switch_to t.current_proc

-- SYS4. The result is the address of the semaphore.
unfoldable pub verhogen : K (Unit {0})
unfolding advance_pc give_result save_current add32 make_ready
verhogen = do
  sem ← arg a1
  if sem == 0
      then (λ _. fault)
      else modify (λ s. record s { mem = update s.mem sem (add32 (s.mem sem) 1) })
  s ← get
  if is_nonpositive (s.mem sem)
      then (do
        p ← on_asl (remove_blocked sem)
        if p == mk_empty_proc_q then pure tt else make_ready p)
      else pure tt
  give_result sem
  advance_pc
  save_current
  switch_to s.current_proc

-- The index of the device semaphore, `(lineNo-3)*8 + devNo`, and 8 more for a read of a terminal.
unfoldable pub dev_sem_index : (line_no dev_no wait_for_term_read : ℕ) → ℕ
unfolding add32 sub32
dev_sem_index line_no dev_no wait_for_term_read =
    let index = add32 (sub32 line_no 3 * 8 % 2 ^ 32) dev_no in
    if wait_for_term_read == 1 then add32 index 8 else index

-- SYS5. If the semaphore does not become negative, it returns and has saved nothing.
unfoldable pub wait_for_device : K (Unit {0})
unfolding advance_pc save_current add32 sub32 charge_time
wait_for_device = do
  stop_tod ← stck
  line_no ← arg a1
  dev_no ← arg a2
  wait_for_term_read ← arg a3
  s ← get
  let sem = device_sem s (dev_sem_index line_no dev_no wait_for_term_read)
  set_mem sem (sub32 (s.mem sem) 1)
  if not (is_negative (sub32 (s.mem sem) 1)) then pure tt else do
    advance_pc
    save_current
    charge_time stop_tod
    _ ← on_asl (insert_blocked sem s.current_proc)
    set_current mk_empty_proc_q
    modify (λ t. record t { soft_block_count = add32 t.soft_block_count 1 })
    scheduler

-- SYS7.
unfoldable pub wait_for_clock : K (Unit {0})
unfolding advance_pc save_current add32 sub32 charge_time
wait_for_clock = do
  stop_tod ← stck
  charge_time stop_tod
  s ← get
  let sem = clock_sem s
  set_mem sem (sub32 (s.mem sem) 1)
  if not (is_negative (sub32 (s.mem sem) 1)) then pure tt else do
    modify (λ t. record t { soft_block_count = add32 t.soft_block_count 1 })
    advance_pc
    save_current
    _ ← on_asl (insert_blocked sem s.current_proc)
    set_current null
  now ← stck
  modify (λ t. record t { start_tod = now })
  scheduler

-- Pass up, or die.
unfoldable pub pass_up_or_die : ℕ → K (Unit {0})
pass_up_or_die pass_up_case = do
  s ← get
  sup ← on_procs (Pcb.load (λ s. s.p_support_struct) s.current_proc)
  if not (sup == null)
      then (if sup == 0 then (λ _. fault) else do
        let support = s.supports sup
        let saved = state_copy (except_state s) (support.sup_except_state pass_up_case)
        modify (λ t. record t {
          supports = update t.supports sup (record support {
            sup_except_state = update support.sup_except_state pass_up_case saved;
          });
        })
        let context = support.sup_except_context pass_up_case
        exit (load_context context.c_stack_ptr context.c_status context.c_pc))
      else (do terminate_process tree_fuel s.current_proc; scheduler)

-- SYS6 and SYS8: a result of the current process, and back to it.
unfoldable pub answer : (Procs → ℕ → ℕ) → K (Unit {0})
unfolding give_result advance_pc save_current
answer field = do
  s ← get
  give_result (← on_procs (Pcb.load field s.current_proc))
  advance_pc
  save_current
  switch_to s.current_proc

-- The switch of `syscallHandler`.
unfoldable pub dispatch : ℕ → K (Unit {0})
dispatch syscall_code =
    if syscall_code == 1
    then create_process
    else if syscall_code == 2
    then (do s ← get; terminate_process tree_fuel s.current_proc)
    else if syscall_code == 3
    then passeren
    else if syscall_code == 4
    then verhogen
    else if syscall_code == 5
    then wait_for_device
    else if syscall_code == 6
    then answer (λ s. s.p_time)
    else if syscall_code == 7
    then wait_for_clock
    else if syscall_code == 8
    then answer (λ s. s.p_support_struct)
    else pass_up_or_die general_except

-- `syscallHandler` with the program trap handler that is linked in. The code is a signed word.
unfoldable pub syscall_handler : (program_trap_handler : K (Unit {0})) → ℕ → K (Unit {0})
syscall_handler program_trap_handler syscall_code = do
  s ← get
  if has_bits (except_state s).s_status kup_on && (is_negative syscall_code || leb syscall_code 8)
      then program_trap_handler
      else pure tt
  dispatch syscall_code
  t ← get
  if not (t.current_proc == null) then switch_to t.current_proc else scheduler
