-- ===== src/Support/Pages.antt =====
-- The page table that initProc.c sets up, and the refill of the TLB from it.
use Prim.Native.Nat.{bit_and}
use native.Mathlib.Nat.{eq-or-lt_of_le}
use os_fall_2021_project.Prelude.{
  ℕ, zero, suc, false, update_self, update_ne, ◌/◌, ◌%◌, ◌^◌, ◌<◌, ◌≤◌, ◌≡◌, refl, Bool, true, ◌&&◌,
  ◌==◌, inl, inr, ◌∷◌, arith, ap, ◌∙◌,
}
use os_fall_2021_project.Machine.Word.{null}
use os_fall_2021_project.Machine.Types.{Pgte}
use os_fall_2021_project.Machine.Outcome.{load_state, Stops, stops}
use os_fall_2021_project.Pcb
use os_fall_2021_project.Pcb.{is_pcb}
use os_fall_2021_project.Nucleus.{Kernel, except_state}
use os_fall_2021_project.Support.InitProc.{
  page_table, page_entries, page_entry, stack_entry, pg_max,
}
use os_fall_2021_project.Support.Vm.{missing_no, u_tlb_refill_handler}

-- The test holds below `n`.
abbrev pub all_below : (ℕ → Bool) → ℕ → Bool
all_below f zero = true
all_below f (suc n) = all_below f n && f n

pub all_below-lt : (f : ℕ → Bool) (n j : ℕ) → all_below f n ≡ true → j < n → f j ≡ true
all_below-lt f zero j h lt = absurd (omega arith)
all_below-lt f (suc n) j h lt =
    let le : j ≤ n = omega (arith, lt) in
    elim (eq-or-lt_of_le le) [
      | inl same ↦ rw same (ground arith)
      | inr below ↦ all_below-lt f n j (ground arith) below
    ]

-- At most 8 user processes, which the stacks and the devices of a line allow.
abbrev pub asid_max : ℕ
asid_max = 8

-- A table without content.
abbrev empty_table : ℕ → Pgte
empty_table j = record { entry_hi = 0; entry_lo = 0 }

abbrev finds : ℕ → ℕ → Bool
finds i j = missing_no (page_table i empty_table j).entry_hi == j

finds-all : all_below (λ i. all_below (finds i) pg_max) asid_max ≡ true
unfolding missing_no page_table page_entries page_entry stack_entry
finds-all = refl

pub page_entries-lt :
    (n i : ℕ) (tbl : ℕ → Pgte) (j : ℕ) → j < n → page_entries n i tbl j ≡ page_entry i j
unfolding page_entries
page_entries-lt zero i tbl j h = absurd (omega arith)
page_entries-lt (suc n) i tbl j h =
    let le : j ≤ n = omega (arith, h) in
    elim (eq-or-lt_of_le le) [
      | inl same ↦ rw same (update_self (page_entries n i tbl) n (page_entry i n))
      | inr below ↦
          update_ne (page_entries n i tbl) n (page_entry i n) j (ground arith)
          ∙ page_entries-lt n i tbl j below
    ]

-- What the table held before does not matter.
page_table-lt :
    (i : ℕ) (tbl tbl' : ℕ → Pgte) (j : ℕ) → j < pg_max → page_table i tbl j ≡ page_table i tbl' j
unfolding page_table
page_table-lt i tbl tbl' j h =
    let le : j ≤ 31 = omega (arith, h) in
    elim (eq-or-lt_of_le le) [
      | inl same ↦ rw same refl
      | inr below ↦
          let other : (j == 31) ≡ false = ground arith in
          simp (other, page_entries-lt 31 i tbl j below, page_entries-lt 31 i tbl' j below) refl
    ]

-- Each of the 32 entries of a page table stands at the index that the pager and the refill handler compute
-- from its page number, for each of 8 user processes.
pub missing_no-page_table :
    (i j : ℕ) (tbl : ℕ → Pgte)
    → i < asid_max
    → j < pg_max
    → missing_no (page_table i tbl j).entry_hi ≡ j
missing_no-page_table i j tbl hi hj =
    let all =
      all_below-lt (finds i) pg_max j
        (all_below-lt (λ i. all_below (finds i) pg_max) asid_max i finds-all hi) hj in
    ap (λ e. missing_no e.entry_hi) (page_table-lt i tbl empty_table j hj) ∙ ground (arith, all)

-- A TLB refill at an address of the page `j` of a user process, whose support structure, at an address that
-- is neither NULL nor 0, has the page table that `test` sets up: the entry of that page is written to the TLB, and the process is resumed.
pub u_tlb_refill_handler-finds :
    (s : Kernel) (i j : ℕ) (tbl : ℕ → Pgte)
    → i < asid_max
    → j < pg_max
    → is_pcb s.current_proc ≡ true
    → (s.asl.procs.p_support_struct s.current_proc == null) ≡ false
    → (s.asl.procs.p_support_struct s.current_proc == 0) ≡ false
    → (s.supports (s.asl.procs.p_support_struct s.current_proc)).sup_private_pg_tbl
      ≡ page_table i tbl
    → bit_and (except_state s).s_entry_hi 0xffff_f000
      ≡ bit_and (page_table i tbl j).entry_hi 0xffff_f000
    → Stops
        (λ e s'.
          (e ≡ load_state (except_state s))
          × (s' ≡ record s {
            hw = record s.hw {
              entry_hi = (page_table i tbl j).entry_hi;
              entry_lo = (page_table i tbl j).entry_lo;
              tlb = page_table i tbl j ∷ s.hw.tlb;
            };
          }))
        (u_tlb_refill_handler s)
unfolding u_tlb_refill_handler missing_no Pcb.load
u_tlb_refill_handler-finds s i j tbl hi hj hc some above table page =
    let index : missing_no (except_state s).s_entry_hi ≡ j =
      ap (λ w. w / 2 ^ 12 % 32) page ∙ missing_no-page_table i j tbl hi hj in
    simp (hc, some, above, index)
      (stops (
        refl,
        ap
            (λ (f : ℕ → Pgte). record s {
              hw = record s.hw {
                entry_hi = (f j).entry_hi;
                entry_lo = (f j).entry_lo;
                tlb = f j ∷ s.hw.tlb;
              };
            })
            table,
      ))
