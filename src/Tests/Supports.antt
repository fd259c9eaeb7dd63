-- ===== src/Tests/Supports.antt =====
-- The theorems about the pager and the refill of the TLB at concrete states.
use os_fall_2021_project.Prelude.{◌≡◌, refl, [], ◌∷◌, ◌==◌, if◌then◌else◌, none, arith}
use os_fall_2021_project.Machine.Types.{Support}
use os_fall_2021_project.Machine.Outcome.{Stops, load_state, pure}
use os_fall_2021_project.Nucleus.{Kernel, except_state}
use os_fall_2021_project.Support.{Level, Syscall}
use os_fall_2021_project.Support.InitProc.{page_table, page_entries, page_entry, stack_entry}
use os_fall_2021_project.Support.Vm.{missing_no, u_tlb_refill_handler}
use os_fall_2021_project.Support.Pages.{missing_no-page_table, u_tlb_refill_handler-finds}
use os_fall_2021_project.Tests.Pcbs.{blank_state, three}
use os_fall_2021_project.Tests.Kernels.{three_ready}

missing_no-page_table_example :
    missing_no (page_table 0 (λ _. record { entry_hi = 0; entry_lo = 0 }) 31).entry_hi ≡ 31
missing_no-page_table_example =
    missing_no-page_table 0 31 (λ _. record { entry_hi = 0; entry_lo = 0 }) (omega arith)
      (omega arith)

-- A process with a page table misses its page 3.
abbrev pub paged_support : Support
paged_support = record (three_ready.supports 0) {
  sup_asid = 1;
  sup_except_state = λ _. record blank_state { s_entry_hi = 0x8000_3040; s_cause = 8 };
  sup_private_pg_tbl = page_table 0 (λ _. record { entry_hi = 0; entry_lo = 0 });
}

abbrev missing_page : Kernel
missing_page = record three_ready {
  asl = record three_ready.asl { procs = record three { p_support_struct = λ _. 0x2000 } };
  current_proc = 9;
  states = λ _. record blank_state { s_entry_hi = 0x8000_3040 };
  supports = λ _. paged_support;
}

u_tlb_refill_handler-finds_example :
    Stops
      (λ e s'.
        (e ≡ load_state (except_state missing_page))
        × (s' ≡ record missing_page {
          hw = record missing_page.hw {
            entry_hi = (paged_support.sup_private_pg_tbl 3).entry_hi;
            entry_lo = (paged_support.sup_private_pg_tbl 3).entry_lo;
            tlb = paged_support.sup_private_pg_tbl 3 ∷ [];
          };
        }))
      (u_tlb_refill_handler missing_page)
unfolding page_table page_entries page_entry stack_entry
u_tlb_refill_handler-finds_example =
    u_tlb_refill_handler-finds missing_page 0 3 (λ _. record { entry_hi = 0; entry_lo = 0 })
      (omega arith) (omega arith) refl refl refl refl refl

-- Each system call returns at once; the one that asks for the support structure gives 7.
abbrev pub prompt : Syscall
prompt n a b c = pure (if n == 8 then 7 else 1)

-- All frames of the pool are free.
abbrev pub level : Level
level = record {
  states = λ _. blank_state;
  supports = λ _. paged_support;
  mem = λ _. 0;
  bytes = λ _. 0;
  swap_pool = λ i. record { id = 0xffff_ffff; page_no = i; pgptr = none };
  victim = 0;
  hw = three_ready.hw;
  link = record {
    tlb_exception_handler = 0;
    sup_gen_exception_handler = 0;
    proc_sem = 0;
    swap_sem = 0;
    dev_mutex = λ _. 0;
    state_array = λ _. 0;
    support_array = λ _. 7;
    sup_stack_tlb = λ _. 0;
    sup_stack_gen = λ _. 0;
  };
}
