-- ===== src/Nucleus/Initial.antt =====
-- initial.c: `main` and the general exception handler.
use Prim.Native.Nat.{bit_and}
use os_fall_2021_project.Prelude.{ℕ, ◌+◌, ◌/◌, ◌==◌, leb, if◌then◌else◌, update}
use os_fall_2021_project.Machine.Word.{null, add32}
use os_fall_2021_project.Machine.Types.{State, a0, sp, t9}
use os_fall_2021_project.Machine.Outcome.{◌>>=◌, ◌>>◌, get, modify, for_range}
use os_fall_2021_project.Pcb.{mk_empty_proc_q}
use os_fall_2021_project.Pcb.Free.{alloc_pcb, init_pcbs}
use os_fall_2021_project.Asl.{init_asl, on_semds}
use os_fall_2021_project.Nucleus.{
  K, on_asl, on_procs, except_state, set_mem, device_sem, sem_count, it_second, stck, ldit, iep_on,
  im_on, te_on,
}
use os_fall_2021_project.Nucleus.Scheduler.{scheduler}
use os_fall_2021_project.Nucleus.Exceptions.{
  arg, copy_to_pcb, make_ready, pass_up_or_die, syscall_handler, pg_fault_except, general_except,
}
use os_fall_2021_project.Nucleus.Interrupts.{interrupt_handler}

-- `STACKADDRESS`.
abbrev stack_address : ℕ
stack_address = 0x2000_1000

unfoldable pub set_pass_up_vector : K (Unit {0})
set_pass_up_vector = modify (λ s. record s {
  hw = record s.hw {
    pass_up_vector = record {
      tlb_refll_handler = s.link.u_tlb_refill_handler;
      tlb_refll_stack_ptr = stack_address;
      exception_handler = s.link.gen_exception_handler;
      exception_stack_ptr = stack_address;
    };
  };
})

-- The global variables.
unfoldable pub init_globals : K (Unit {0})
init_globals = do
  modify (λ s. record s {
    process_count = 0;
    soft_block_count = 0;
    ready_q = mk_empty_proc_q;
    current_proc = null;
  })
  for_range sem_count 0 (λ i. do s ← get; set_mem (device_sem s i) 0)

-- The first process. The fields of `initialState` that the code does not set hold what the stack
-- held, which is the argument `garbage`.
unfoldable pub start_first : State → K (Unit {0})
unfolding add32
start_first garbage = do
  temp_pcb ← on_procs alloc_pcb
  s ← get
  let ramtop = add32 s.hw.rambase s.hw.ramsize
  let initial_state = record garbage {
    s_pc = s.link.test;
    s_status = iep_on + im_on + te_on;
    s_reg = update (update garbage.s_reg sp ramtop) t9 s.link.test;
  }
  copy_to_pcb initial_state temp_pcb
  make_ready temp_pcb
  modify (λ t. record t { process_count = add32 t.process_count 1 })

unfoldable pub main : (garbage : State) → K (Unit {0})
unfolding set_pass_up_vector init_globals start_first
main garbage = do
  set_pass_up_vector
  now ← stck
  modify (λ t. record t { start_tod = now })
  on_procs init_pcbs
  on_asl (on_semds init_asl)
  init_globals
  ldit it_second
  start_first garbage
  scheduler

-- `(cause & EXMASK) >> 2`.
unfoldable pub exc_code : State → ℕ
exc_code st = bit_and st.s_cause 0x7c / 4

unfoldable pub gen_exception_handler : (program_trap_handler : K (Unit {0})) → K (Unit {0})
unfolding exc_code
gen_exception_handler program_trap_handler = do
  s ← get
  let code = exc_code (except_state s)
  if code == 0
      then interrupt_handler
      else if leb code 3
      then pass_up_or_die pg_fault_except
      else if code == 8
      then (do c ← arg a0; syscall_handler program_trap_handler c)
      else pass_up_or_die general_except
  pass_up_or_die general_except
