-- ===== src/Machine/Types.antt =====
-- The structures of h/types.h. A field that holds a pointer holds an address, a number.
use os_fall_2021_project.Prelude.{ℕ, update}

-- `state_t`, with the registers by index.
pub record State : Type 0 where
  pub s_entry_hi : ℕ
  pub s_cause : ℕ
  pub s_status : ℕ
  pub s_pc : ℕ
  pub s_reg : ℕ → ℕ

abbrev pub state_reg_num : ℕ
state_reg_num = 31

-- The registers by name: `s_v0`, `s_a0` to `s_a3`, `s_t9`, `s_sp`.
abbrev pub v0 : ℕ
v0 = 1

abbrev pub a0 : ℕ
a0 = 3

abbrev pub a1 : ℕ
a1 = 4

abbrev pub a2 : ℕ
a2 = 5

abbrev pub a3 : ℕ
a3 = 6

abbrev pub t9 : ℕ
t9 = 24

abbrev pub sp : ℕ
sp = 26

abbrev pub set_reg : State → ℕ → ℕ → State
set_reg s r v = record s { s_reg = update s.s_reg r v }

-- `context_t`.
pub record Context : Type 0 where
  pub c_stack_ptr : ℕ
  pub c_status : ℕ
  pub c_pc : ℕ

-- `pgte_t`.
pub record Pgte : Type 0 where
  pub entry_hi : ℕ
  pub entry_lo : ℕ

-- `support_t`, its arrays by index. The two stacks are only ever named by their addresses.
pub record Support : Type 0 where
  pub sup_asid : ℕ
  pub sup_except_state : ℕ → State
  pub sup_except_context : ℕ → Context
  pub sup_private_pg_tbl : ℕ → Pgte
