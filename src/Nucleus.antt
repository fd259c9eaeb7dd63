-- ===== src/Nucleus.antt =====
-- The state of the nucleus: the global variables of initial.c, the memory and the registers of the
-- machine that it reads and writes, and what it uses of libumps.
pub mod Scheduler
pub mod Dispatch
pub mod Invariant
pub mod Queues
pub mod Semaphores
pub mod Release
pub mod Clock
pub mod Preempt
pub mod Completion
pub mod Waiting
pub mod Exceptions
pub mod Interrupts
pub mod Devices
pub mod Initial
pub mod First
pub mod Boot
pub mod Unqueue
pub mod Live
pub mod LeaveWait
pub mod Leave
pub mod Freed
pub mod Family
pub mod Exit
pub mod Siblings
pub mod Tree
pub mod Terminate
pub mod Calls
pub mod Death
pub mod DevSems
pub mod Lines
pub mod Create
pub mod Phases
pub mod Protect
use os_fall_2021_project.Prelude.{
  ℕ, ◌+◌, ◌-◌, ◌*◌, ◌/◌, ◌%◌, ◌^◌, Bool, List, ◌==◌, if◌then◌else◌, update, not,
}
use Prim.Native.Nat.{bit_and}
use os_fall_2021_project.Machine.Word.{null, add32, is_negative}
use os_fall_2021_project.Machine.Types.{State, Support, Pgte}
use os_fall_2021_project.Machine.Outcome.{
  Stop, load_state, ok, stop, fault, M, pure, ◌>>=◌, ◌>>◌, get, modify, embed,
}
use os_fall_2021_project.Pcb
use os_fall_2021_project.Pcb.{Procs}
use os_fall_2021_project.Asl.{Semds, Asl}

-- What the linker decides: the addresses of the handlers, of `test` and of `deviceSema4s`.
pub record Link : Type 0 where
  pub test : ℕ
  pub u_tlb_refill_handler : ℕ
  pub gen_exception_handler : ℕ
  pub device_sema4s : ℕ

-- `passupvector_t`.
pub record PassUpVector : Type 0 where
  pub tlb_refll_handler : ℕ
  pub tlb_refll_stack_ptr : ℕ
  pub exception_handler : ℕ
  pub exception_stack_ptr : ℕ

-- `device_t`.
pub record Device : Type 0 where
  pub d_status : ℕ
  pub d_command : ℕ
  pub d_data0 : ℕ
  pub d_data1 : ℕ

-- The processor and the bus. `tlb` holds the entries that were written since the last TLBCLR, and
-- `todlo i` is what the low word of the clock shows at the read `i`.
pub record Hardware : Type 0 where
  pub todlo : ℕ → ℕ
  pub tod_reads : ℕ
  pub timescale : ℕ
  pub local_timer : ℕ
  pub interval_timer : ℕ
  pub status : ℕ
  pub rambase : ℕ
  pub ramsize : ℕ
  pub interrupt_dev : ℕ → ℕ
  pub dev_reg : ℕ → Device
  pub pass_up_vector : PassUpVector
  pub entry_hi : ℕ
  pub entry_lo : ℕ
  pub tlb : List Pgte

-- `mem` holds the words of memory that are semaphores, `states` the `state_t` objects outside the
-- pcbs and `supports` the `support_t` objects, each by its address.
pub record Kernel : Type 0 where
  pub asl : Asl
  pub process_count : ℕ
  pub soft_block_count : ℕ
  pub ready_q : ℕ
  pub current_proc : ℕ
  pub start_tod : ℕ
  pub mem : ℕ → ℕ
  pub states : ℕ → State
  pub supports : ℕ → Support
  pub hw : Hardware
  pub link : Link

abbrev pub K : Type 0 → Type 0
K A = M Kernel A

abbrev pub on_asl : {A : Type 0} → M Asl A → K A
on_asl m s = embed (λ t a. record t { asl = a }) s (m s.asl)

abbrev pub on_procs : {A : Type 0} → M Procs A → K A
on_procs m s = embed (λ t p. record t { asl = record t.asl { procs = p } }) s (m s.asl.procs)

-- An instruction that does not return.
abbrev pub exit : {A : Type 0} → Stop → K A
exit e s = stop e s

-- `EXCEPTSTATEADDR`, which is also `BIOSDATAPAGE`.
abbrev pub except_state_addr : ℕ
except_state_addr = 0x0fff_f000

abbrev pub word_len : ℕ
word_len = 4

-- `SEMCOUNT`.
abbrev pub sem_count : ℕ
sem_count = 49

-- `TIMESLICE` and `ITSECOND`.
abbrev pub time_slice : ℕ
time_slice = 5000

abbrev pub it_second : ℕ
it_second = 100_000

-- The bits of the status register.
abbrev pub im_on : ℕ
im_on = 0xff00

abbrev pub te_on : ℕ
te_on = 0x0800_0000

abbrev pub iec_on : ℕ
iec_on = 1

abbrev pub iep_on : ℕ
iep_on = 4

abbrev pub kup_on : ℕ
kup_on = 8

-- `cause & mask` as a condition.
abbrev pub has_bits : ℕ → ℕ → Bool
has_bits w mask = not (bit_and w mask == 0)

-- `&deviceSema4s[i]`, and `&clockSem`.
unfoldable pub device_sem : Kernel → ℕ → ℕ
unfolding add32
device_sem s i = add32 s.link.device_sema4s (4 * i % 2 ^ 32)

unfoldable pub clock_sem : Kernel → ℕ
unfolding device_sem
clock_sem s = device_sem s (sem_count - 1)

abbrev pub except_state : Kernel → State
except_state s = s.states except_state_addr

unfoldable pub set_except_state : (State → State) → K (Unit {0})
set_except_state f =
    modify (λ s. record s { states = update s.states except_state_addr (f (except_state s)) })

abbrev pub set_mem : ℕ → ℕ → K (Unit {0})
set_mem a v = modify (λ s. record s { mem = update s.mem a v })

-- A division of signed words that rounds to 0; by 0 it traps.
neg32 : ℕ → ℕ
neg32 w = (2 ^ 32 - w) % 2 ^ 32

unfoldable pub div_signed : ℕ → ℕ → ℕ
unfolding neg32
div_signed a b =
    if is_negative a
    then (if is_negative b then neg32 a / neg32 b else neg32 (neg32 a / b))
    else (if is_negative b then neg32 (a / neg32 b) else a / b)

-- `STCK`.
unfoldable pub stck : K ℕ
unfolding div_signed
stck = do
  s ← get
  modify (λ t. record t { hw = record t.hw { tod_reads = t.hw.tod_reads + 1 } })
  if s.hw.timescale == 0
      then (λ _. fault)
      else pure (div_signed (s.hw.todlo s.hw.tod_reads) s.hw.timescale)

-- `LDIT`.
unfoldable pub ldit : ℕ → K (Unit {0})
ldit t =
    modify (λ s. record s { hw = record s.hw { interval_timer = t * s.hw.timescale % 2 ^ 32 } })

-- `setTIMER` and `setSTATUS`.
unfoldable pub set_timer : ℕ → K (Unit {0})
set_timer t = modify (λ s. record s { hw = record s.hw { local_timer = t } })

unfoldable pub set_status : ℕ → K (Unit {0})
set_status w = modify (λ s. record s { hw = record s.hw { status = w } })
