-- ===== src/Support.antt =====
-- The support level of phase 3: the state that initProc.c, vmSupport.c and sysSupport.c share. The
-- instruction SYSCALL is a parameter of that code, which runs above the nucleus.
pub mod InitProc
pub mod Vm
pub mod Pages
pub mod Pager
pub mod Pool
pub mod PoolStep
pub mod Serves
pub mod Flash
pub mod Paging
pub mod PoolInit
pub mod Sys
use Prim.Native.Nat.{bit_and, bit_or}
use os_fall_2021_project.Prelude.{ℕ, ◌+◌, ◌*◌, ◌%◌, ◌^◌, Option, none, some, update}
use os_fall_2021_project.Machine.Types.{State, Support}
use os_fall_2021_project.Machine.Outcome.{ok, fault, M, pure, ◌>>=◌, ◌>>◌, get, modify}
use os_fall_2021_project.Nucleus.{Hardware, Device}

-- What the linker decides, and the addresses of the entries of the static arrays.
pub record SupportLink : Type 0 where
  pub tlb_exception_handler : ℕ
  pub sup_gen_exception_handler : ℕ
  pub proc_sem : ℕ
  pub swap_sem : ℕ
  pub dev_mutex : ℕ → ℕ
  pub state_array : ℕ → ℕ
  pub support_array : ℕ → ℕ
  pub sup_stack_tlb : ℕ → ℕ
  pub sup_stack_gen : ℕ → ℕ

-- `swap_t`. A pointer to a page table entry is the address of its `support_t` and its index.
pub record Frame : Type 0 where
  pub id : ℕ
  pub page_no : ℕ
  pub pgptr : Option (ℕ × ℕ)

-- `victim` is the static index `i` of vmSupport.c, `bytes` the memory that strings are read from.
pub record Level : Type 0 where
  pub states : ℕ → State
  pub supports : ℕ → Support
  pub mem : ℕ → ℕ
  pub bytes : ℕ → ℕ
  pub swap_pool : ℕ → Frame
  pub victim : ℕ
  pub hw : Hardware
  pub link : SupportLink

abbrev pub L : Type 0 → Type 0
L A = M Level A

-- SYSCALL with its four arguments.
abbrev pub Syscall : Type 0
Syscall = (a0 a1 a2 a3 : ℕ) → L ℕ

-- `setSTATUS(f(getSTATUS()))`.
unfoldable pub map_status : (ℕ → ℕ) → L (Unit {0})
map_status f = modify (λ s. record s { hw = record s.hw { status = f s.hw.status } })

-- `& IECOFF`, and `| IECON`.
abbrev pub interrupts_off : L (Unit {0})
interrupts_off = map_status (λ w. bit_and w 0xffff_fffe)

abbrev pub interrupts_on : L (Unit {0})
interrupts_on = map_status (λ w. bit_or w 1)

abbrev pub set_device : ℕ → (Device → Device) → L (Unit {0})
set_device i f =
    modify
      (λ s. record s { hw = record s.hw { dev_reg = update s.hw.dev_reg i (f (s.hw.dev_reg i)) } })
