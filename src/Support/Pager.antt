-- ===== src/Support/Pager.antt =====
-- The pager of vmSupport.c.
use Prim.Native.Nat.{bit_or}
use native.Mathlib.Decide.{ℕ_discrete}
use os_fall_2021_project.Prelude.{
  ℕ, ◌≡◌, false, ◌+◌, ◌*◌, ◌%◌, ◌^◌, ◌==◌, ◌&&◌, update, update_self, update_ne, arith, ap, ◌∙◌,
}
use os_fall_2021_project.Machine.Word.{add32, sub32}
use os_fall_2021_project.Machine.Types.{Support}
use os_fall_2021_project.Nucleus.{Device}
use os_fall_2021_project.Support.{Level}
use os_fall_2021_project.Support.Vm.{missing_no, pool_size, set_entry_lo}

-- The frame that is the next victim.
abbrev pub next_victim : Level → ℕ
next_victim s = (s.victim + 1) % pool_size

-- The page that the process at `sup` misses.
abbrev pub missed : Level → ℕ → ℕ
missed s sup = missing_no ((s.supports sup).sup_except_state 0).s_entry_hi

-- The register of the flash device of a process.
abbrev pub flash_dev : ℕ → ℕ
flash_dev asid = add32 8 (sub32 asid 1)

-- The flash device of a process is told to transfer a page, by `op` 2 to read it and by 3 to write it.
abbrev pub Told : Level → (asid page op : ℕ) → Type 0
Told t asid page op =
    ((t.hw.dev_reg (flash_dev asid)).d_data0 ≡ add32 0x2002_0000 (page * 4096))
    × ((t.hw.dev_reg (flash_dev asid)).d_command ≡ bit_or (page * 2 ^ 8 % 2 ^ 32) op)

-- A device register that is written twice.
pub update_twice :
    (m : ℕ → Device) (k : ℕ) (d : Device) (f : Device → Device)
    → update (update m k d) k (f (update m k d k)) k ≡ f d
update_twice m k d f = update_self (update m k d) k _ ∙ ap f (update_self m k d)

-- Another entry of a page table leaves the rest of the structures as they are.
pub set_entry_lo_same :
    {A : Type 0} (f : Support → A) (m : ℕ → Support) (o page : ℕ) (g : ℕ → ℕ) (b : ℕ)
    → ((x : Support) → f (set_entry_lo x page g) ≡ f x)
    → f (update m o (set_entry_lo (m o) page g) b) ≡ f (m b)
set_entry_lo_same f m o page g b keep = elim (ℕ_discrete b o) [
  | yes same ↦ rw same (ap f (update_self m o _) ∙ keep (m o))
  | no other ↦ ap f (update_ne m o _ b other)
]

-- The changed entry, and the others.
pub set_entry_lo_self :
    (m : ℕ → Support) (o page : ℕ) (g : ℕ → ℕ)
    → ((update m o (set_entry_lo (m o) page g) o).sup_private_pg_tbl page).entry_lo
      ≡ g ((m o).sup_private_pg_tbl page).entry_lo
set_entry_lo_self m o page g =
    ap (λ x. (x.sup_private_pg_tbl page).entry_lo) (update_self m o (set_entry_lo (m o) page g))
    ∙ ap (λ x. x.entry_lo) (update_self (m o).sup_private_pg_tbl page _)

pub set_entry_lo_other :
    (m : ℕ → Support) (o page : ℕ) (g : ℕ → ℕ) (b q : ℕ)
    → ((b == o) && (q == page)) ≡ false
    → ((update m o (set_entry_lo (m o) page g) b).sup_private_pg_tbl q).entry_lo
      ≡ ((m b).sup_private_pg_tbl q).entry_lo
set_entry_lo_other m o page g b q apart = elim (ℕ_discrete b o) [
  | yes same ↦
      let away : (q == page) ≡ false = ground (arith, apart, same) in
      rw same (
        ap (λ x. (x.sup_private_pg_tbl q).entry_lo) (update_self m o (set_entry_lo (m o) page g))
        ∙ ap (λ x. x.entry_lo) (update_ne (m o).sup_private_pg_tbl page _ q (ground arith)))
  | no other ↦ ap (λ x. (x.sup_private_pg_tbl q).entry_lo) (update_ne m o _ b other)
]
