-- ===== src/Support/Vm.antt =====
-- vmSupport.c of phase 3: the pager, the refill of the TLB, and the transfer of a page.
use Prim.Native.Nat.{bit_and, bit_or}
use os_fall_2021_project.Prelude.{
  ℕ, ◌+◌, ◌*◌, ◌/◌, ◌%◌, ◌^◌, not, ◌||◌, ◌==◌, if◌then◌else◌, Option, none, some, update, [], ◌∷◌,
}
use os_fall_2021_project.Machine.Word.{null, add32, sub32, error_code}
use os_fall_2021_project.Machine.Types.{Support}
use os_fall_2021_project.Machine.Outcome.{load_state, stop, fault, pure, ◌>>=◌, ◌>>◌, get, modify}
use os_fall_2021_project.Pcb
use os_fall_2021_project.Nucleus.{K, on_procs, except_state, exit}
use os_fall_2021_project.Support.{
  L, Syscall, Frame, interrupts_off, interrupts_on, set_device, map_status,
}

-- `(entryHI & VPNMASK) >> VPNSHIFT`, and `% 32`.
unfoldable pub missing_no : ℕ → ℕ
missing_no entry_hi = bit_and entry_hi 0xffff_f000 / 2 ^ 12 % 32

-- `POOLSIZE`.
abbrev pub pool_size : ℕ
pool_size = 20

unfoldable pub pick_victim : L ℕ
pick_victim = do
  s ← get
  let i = (s.victim + 1) % pool_size
  modify (λ t. record t { victim = i })
  pure i

-- `READ` and `WRITE`, the values of `readFlash`.
abbrev pub flash_read : ℕ
flash_read = 1

abbrev pub flash_write : ℕ
flash_write = 0

unfoldable pub flash_io : Syscall → (read_flash asid block_no : ℕ) → L ℕ
unfolding add32 sub32
flash_io syscall read_flash asid block_no = do
  interrupts_off
  let dev_index = add32 8 (sub32 asid 1)
  set_device dev_index (λ d. record d { d_data0 = add32 0x2002_0000 (block_no * 4096) })
  if not (read_flash == 0)
      then set_device dev_index (λ d. record d { d_command = bit_or (block_no * 2 ^ 8 % 2 ^ 32) 2 })
      else set_device dev_index (λ d. record d { d_command = bit_or (block_no * 2 ^ 8 % 2 ^ 32) 3 })
  syscall 5 4 (sub32 asid 1) 0

abbrev pub set_frame : ℕ → Frame → L (Unit {0})
set_frame i f = modify (λ s. record s { swap_pool = update s.swap_pool i f })

-- A page table entry with another `entryLO`.
abbrev pub set_entry_lo : Support → ℕ → (ℕ → ℕ) → Support
set_entry_lo sup page f = record sup {
  sup_private_pg_tbl = update sup.sup_private_pg_tbl page (record {
    entry_hi = (sup.sup_private_pg_tbl page).entry_hi;
    entry_lo = f (sup.sup_private_pg_tbl page).entry_lo;
  });
}

abbrev pub set_entry : (sup page : ℕ) → (ℕ → ℕ) → L (Unit {0})
set_entry sup page f =
    modify
      (λ s. record s { supports = update s.supports sup (set_entry_lo (s.supports sup) page f) })

-- `frame->pgptr->entryLO &= VALIDOFF`.
unfoldable pub invalidate : Option (ℕ × ℕ) → L (Unit {0})
invalidate none = λ _. fault
invalidate (some (sup, page)) = set_entry sup page (λ w. bit_and w 0xffff_fdff)

-- The page of an occupied frame goes to the backing store of its owner.
unfoldable pub evict : Syscall → (program_trap_handler : L (Unit {0})) → Frame → L (Unit {0})
unfolding invalidate flash_io map_status
evict syscall program_trap_handler frame = do
  interrupts_off
  invalidate frame.pgptr
  ret_code ← flash_io syscall flash_write frame.id frame.page_no
  if ret_code == error_code then program_trap_handler else pure tt
  interrupts_on

-- The missing page comes into the frame `victim`. The last step is `LDST` of the saved state.
unfoldable pub load_page : Syscall → (procsup missing victim : ℕ) → L (Unit {0})
unfolding flash_io map_status
load_page syscall procsup missing victim = do
  s ← get
  _ ← flash_io syscall flash_read (s.supports procsup).sup_asid missing
  interrupts_off
  s ← get
  set_frame victim (record {
    id = (s.supports procsup).sup_asid;
    page_no = missing;
    pgptr = some (procsup, missing);
  })
  set_entry procsup missing (λ _. bit_or (bit_or (victim * 2 ^ 12 % 2 ^ 32) 0x200) 0x400)
  modify (λ t. record t { hw = record t.hw { tlb = [] } })
  interrupts_on
  _ ← syscall 4 s.link.swap_sem 0 0
  t ← get
  λ u. stop (load_state ((t.supports procsup).sup_except_state 0)) u

-- What the pager does with the swap pool, between the P and the V on it.
unfoldable pub replace_page :
    Syscall → (program_trap_handler : L (Unit {0})) → (procsup : ℕ) → L (Unit {0})
unfolding missing_no pick_victim evict load_page
replace_page syscall program_trap_handler procsup = do
  s ← get
  let missing = missing_no ((s.supports procsup).sup_except_state 0).s_entry_hi
  victim ← pick_victim
  s ← get
  let frame = s.swap_pool victim
  if not (frame.id == 0xffff_ffff) then evict syscall program_trap_handler frame else pure tt
  load_page syscall procsup missing victim

-- The pager.
unfoldable pub tlb_exception_handler :
    Syscall → (program_trap_handler : L (Unit {0})) → L (Unit {0})
unfolding replace_page
tlb_exception_handler syscall program_trap_handler = do
  procsup ← syscall 8 0 0 0
  s ← get
  if bit_and ((s.supports procsup).sup_except_state 0).s_cause 0x7c / 4 == 1
      then program_trap_handler
      else pure tt
  _ ← syscall 3 s.link.swap_sem 0 0
  replace_page syscall program_trap_handler procsup

-- The refill handler runs in the nucleus: TLBWR writes the entry that the two registers hold.
unfoldable pub u_tlb_refill_handler : K (Unit {0})
unfolding missing_no
u_tlb_refill_handler = do
  s ← get
  let missing = missing_no (except_state s).s_entry_hi
  page_sup ← on_procs (Pcb.load (λ s. s.p_support_struct) s.current_proc)
  if page_sup == null || page_sup == 0 then (λ _. fault) else pure tt
  let entry = (s.supports page_sup).sup_private_pg_tbl missing
  modify (λ t. record t {
    hw = record t.hw {
      entry_hi = entry.entry_hi;
      entry_lo = entry.entry_lo;
      tlb = entry ∷ t.hw.tlb;
    };
  })
  exit (load_state (except_state s))
