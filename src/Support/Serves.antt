-- ===== src/Support/Serves.antt =====
-- What the pager of vmSupport.c relies on of SYSCALL, while other processes run in between.
use mathlib.Core.Path.{subst, sym}
use os_fall_2021_project.Prelude.{ℕ, ◌≡◌, false, Bool, ◌<◌, ◌==◌, ap, ◌∙◌}
use os_fall_2021_project.Machine.Word.{sub32, error_code}
use os_fall_2021_project.Machine.Types.{Support}
use os_fall_2021_project.Machine.Outcome.{Returns}
use os_fall_2021_project.Support.{Level, Syscall, Frame}
use os_fall_2021_project.Support.Vm.{pool_size}
use os_fall_2021_project.Support.Pager.{missed, Told}
use os_fall_2021_project.Support.Pool.{lo, is_valid, is_free, IsPool}

-- From `s` to `t` the swap pool, the page tables and the numbers of all processes stay, and so do the saved
-- states of the process at `sup`.
pub record Keeps (sup : ℕ) (s t : Level) : Type 0 where
  pub pool : t.swap_pool ≡ s.swap_pool
  pub victim : t.victim ≡ s.victim
  pub link : t.link ≡ s.link
  pub asid : (o : ℕ) → (t.supports o).sup_asid ≡ (s.supports o).sup_asid
  pub tables : (o : ℕ) → (t.supports o).sup_private_pg_tbl ≡ (s.supports o).sup_private_pg_tbl
  pub own : (t.supports sup).sup_except_state ≡ (s.supports sup).sup_except_state

-- From `s` to `t` other processes may have used the swap pool, which is in step with the page tables; of the
-- process at `sup`, the number and the saved states stay, and the page that it misses is not valid.
pub record Enters (user : ℕ → Bool) (sup : ℕ) (s t : Level) : Type 0 where
  pub pool : IsPool user t.supports t.swap_pool
  pub asid : (t.supports sup).sup_asid ≡ (s.supports sup).sup_asid
  pub own : (t.supports sup).sup_except_state ≡ (s.supports sup).sup_except_state
  pub missing : is_valid (lo t.supports sup (missed t sup)) ≡ false

-- SYSCALL as the process at `sup` sees it. SYS8 gives `sup`. SYS3 on the swap pool lets others use it. SYS5
-- returns where the flash device of the process is told to read the page that it misses, and without an
-- error where that of the owner of an occupied frame is told to write the page in that frame; while it
-- waits, and in SYS4 and SYS8, nobody uses the swap pool. SYS4 does not write to the TLB.
pub record Serves (user : ℕ → Bool) (sup : ℕ) (syscall : Syscall) : Type 0 where
  pub supported : (t : Level) → Returns (λ r u. (r ≡ sup) × Keeps sup t u) (syscall 8 0 0 0 t)
  pub enters :
      (t : Level)
      → IsPool user t.supports t.swap_pool
      → is_valid (lo t.supports sup (missed t sup)) ≡ false
      → Returns (λ _ u. Enters user sup t u) (syscall 3 t.link.swap_sem 0 0 t)
  pub reads :
      (t : Level)
      → Told t (t.supports sup).sup_asid (missed t sup) 2
      → Returns (λ _ u. Keeps sup t u) (syscall 5 4 (sub32 (t.supports sup).sup_asid 1) 0 t)
  pub writes :
      (t : Level) (i : ℕ)
      → i < pool_size
      → is_free (t.swap_pool i) ≡ false
      → Told t (t.swap_pool i).id (t.swap_pool i).page_no 3
      → Returns
          (λ r u. ((r == error_code) ≡ false) × Keeps sup t u)
          (syscall 5 4 (sub32 (t.swap_pool i).id 1) 0 t)
  pub leaves :
      (t : Level)
      → Returns (λ _ u. Keeps sup t u × (u.hw.tlb ≡ t.hw.tlb)) (syscall 4 t.link.swap_sem 0 0 t)

-- The invariant depends on the numbers and the page tables only.
IsPool-tables :
    (user : ℕ → Bool) (m m' : ℕ → Support) (pool : ℕ → Frame)
    → ((o : ℕ) → (m' o).sup_asid ≡ (m o).sup_asid)
    → ((o : ℕ) → (m' o).sup_private_pg_tbl ≡ (m o).sup_private_pg_tbl)
    → IsPool user m pool
    → IsPool user m' pool
IsPool-tables user m m' pool asid tables inv = record {
  held = λ i hi busy.
      let h = inv.held i hi busy in
      record {
        owner = h.owner;
        page = h.page;
        pgptr = h.pgptr;
        known = h.known;
        id = h.id ∙ sym (asid h.owner);
        page_no = h.page_no;
        entry = ap (λ f. (f h.page).entry_lo) (tables h.owner) ∙ h.entry;
      };
  mapped = λ o page known hp valid.
      inv.mapped o page known hp (sym (ap (λ f. is_valid (f page).entry_lo) (tables o)) ∙ valid);
}

-- It is kept, with any frame of the pool changed alike.
pub Keeps-IsPool :
    {user : ℕ → Bool} {sup : ℕ} {s t : Level} (change : (ℕ → Frame) → ℕ → Frame)
    → Keeps sup s t
    → IsPool user s.supports (change s.swap_pool)
    → IsPool user t.supports (change t.swap_pool)
Keeps-IsPool {user} {sup} {s} {t} change kept inv =
    subst (IsPool user t.supports) (ap change (sym kept.pool))
      (IsPool-tables user s.supports t.supports (change s.swap_pool) kept.asid kept.tables inv)
