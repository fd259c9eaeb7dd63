-- ===== src/Support/InitProc.antt =====
-- initProc.c of phase 3: `test`, the first process, which sets up the user processes.
use Prim.Native.Nat.{bit_or}
use os_fall_2021_project.Prelude.{ℕ, zero, suc, ◌+◌, ◌-◌, ◌*◌, ◌%◌, ◌^◌, none, update}
use os_fall_2021_project.Machine.Types.{State, Support, Pgte, sp, t9}
use os_fall_2021_project.Machine.Outcome.{pure, ◌>>=◌, ◌>>◌, get, modify, for_range}
use os_fall_2021_project.Nucleus.{sem_count, iep_on, im_on, te_on, kup_on}
use os_fall_2021_project.Support.{L, Syscall, SupportLink}

-- `UPROCMAX`, `POOLMAX` and `PGMAX`.
abbrev pub uproc_max : ℕ
uproc_max = 1

abbrev pub pool_max : ℕ
pool_max = 20

abbrev pub pg_max : ℕ
pg_max = 32

abbrev set_word : ℕ → ℕ → L (Unit {0})
set_word a v = modify (λ s. record s { mem = update s.mem a v })

unfoldable pub init_swap_pool : L (Unit {0})
init_swap_pool = for_range pool_max 0 (λ i. modify (λ s. record s {
  swap_pool = update s.swap_pool i (record { id = 0xffff_ffff; page_no = i; pgptr = none });
}))

-- The state of the user process `i`: `TEXTADDR`, `STACKPAGEADDR`, and its number in `entryHI`.
unfoldable pub user_state : ℕ → State → State
user_state i st = record st {
  s_pc = 0x8000_00b0;
  s_reg = update (update st.s_reg t9 0x8000_00b0) sp 0xc000_0000;
  s_status = kup_on + iep_on + im_on + te_on;
  s_entry_hi = (i + 1) * 2 ^ 6 % 2 ^ 32;
}

-- The page table: 31 pages of text and data from 0x80000 on, and the stack page. The entries hold
-- the number of the process, i + 1, but the stack page holds i.
unfoldable pub page_entry : (i j : ℕ) → Pgte
page_entry i j = record {
  entry_hi = bit_or ((0x80000 + j) * 2 ^ 12 % 2 ^ 32) ((i + 1) * 2 ^ 6 % 2 ^ 32);
  entry_lo = 0x400;
}

unfoldable pub stack_entry : (i : ℕ) → Pgte
stack_entry i = record {
  entry_hi = bit_or (0xbffff * 2 ^ 12 % 2 ^ 32) (i * 2 ^ 6 % 2 ^ 32);
  entry_lo = 0x400;
}

-- The entries below `n`.
unfoldable pub page_entries : (n i : ℕ) → (ℕ → Pgte) → ℕ → Pgte
unfolding page_entry
page_entries zero i tbl = tbl
page_entries (suc j) i tbl = update (page_entries j i tbl) j (page_entry i j)

unfoldable pub page_table : ℕ → (ℕ → Pgte) → ℕ → Pgte
unfolding page_entries stack_entry
page_table i tbl = update (page_entries (pg_max - 1) i tbl) (pg_max - 1) (stack_entry i)

abbrev handler_status : ℕ
handler_status = iep_on + im_on + te_on

unfoldable pub user_support : SupportLink → ℕ → Support → Support
unfolding page_table
user_support link i sup = record sup {
  sup_asid = i + 1;
  sup_except_context =
      update
        (update sup.sup_except_context 0 (record {
          c_pc = link.tlb_exception_handler;
          c_status = handler_status;
          c_stack_ptr = link.sup_stack_tlb i;
        }))
        1
        (record {
          c_pc = link.sup_gen_exception_handler;
          c_status = handler_status;
          c_stack_ptr = link.sup_stack_gen i;
        });
  sup_private_pg_tbl = page_table i sup.sup_private_pg_tbl;
}

-- Each user process is created, and awaited before the next one.
unfoldable pub test : Syscall → L (Unit {0})
unfolding init_swap_pool user_state user_support
test syscall = do
  s ← get
  let link = s.link
  set_word link.proc_sem 0
  for_range sem_count 0 (λ i. set_word (link.dev_mutex i) 1)
  init_swap_pool
  for_range uproc_max 0 (λ i. do
    let st = link.state_array i
    let sup = link.support_array i
    modify (λ t. record t { states = update t.states st (user_state i (t.states st)) })
    modify
        (λ t. record t { supports = update t.supports sup (user_support link i (t.supports sup)) })
    _ ← syscall 1 st sup 0
    _ ← syscall 3 link.proc_sem 0 0
    pure tt)
  _ ← syscall 2 0 0 0
  pure tt
