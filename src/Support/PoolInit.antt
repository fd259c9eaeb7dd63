-- ===== src/Support/PoolInit.antt =====
-- `test` makes the swap pool and the page tables.
use mathlib.Core.Path.{subst}
use native.Mathlib.Numerals.{add-one}
use native.Mathlib.Nat.{eq-or-lt_of_le}
use os_fall_2021_project.Prelude.{
  ℕ, suc, ◌≡◌, refl, true, false, Bool, ◌||◌, zero, Bool-cases, sym, ◌<◌, ◌≤◌, ◌==◌, inl, inr,
  update, arith, ap, ◌∙◌,
}
use os_fall_2021_project.Machine.Types.{Support}
use os_fall_2021_project.Machine.Outcome.{
  ok, and_then, Returns, returns, Returns-mono, for_range_inv, Returns-bind, Returns-then, Stops,
  Stops-bind,
}
use os_fall_2021_project.Support.{Syscall, Level, SupportLink, Frame}
use os_fall_2021_project.Support.InitProc.{
  init_swap_pool, user_support, user_state, page_table, page_entry, stack_entry, pg_max, pool_max,
  uproc_max, test,
}
use os_fall_2021_project.Support.Pages.{page_entries-lt}
use os_fall_2021_project.Support.Pool.{lo, is_valid, is_free, IsPool}

-- The frames below `n` are free, and the page tables are as they were.
record Cleared (s : Level) (n : ℕ) (t : Level) : Type 0 where
  free : (i : ℕ) → i < n → is_free (t.swap_pool i) ≡ true
  supports : t.supports ≡ s.supports

-- Where no page of a process in `user` is valid, the pool that `initSwapPool` makes is in step with the
-- page tables.
pub init_swap_pool-IsPool :
    (user : ℕ → Bool) (s : Level)
    → ((o page : ℕ) → user o ≡ true → page < pg_max → is_valid (lo s.supports o page) ≡ false)
    → Returns (λ _ t. IsPool user t.supports t.swap_pool) (init_swap_pool s)
unfolding init_swap_pool
init_swap_pool-IsPool user s none_valid =
    Returns-mono
      (for_range_inv (Cleared s) _ pool_max 0 pool_max s refl
        (λ i t h c.
          returns (record { free = λ j hj. ground (arith, c.free j); supports = c.supports }))
        (record { free = λ i h. absurd (omega (arith, h)); supports = refl }))
      λ _ t c. record {
        held = λ i hi busy. absurd (ground (arith, c.free i hi, busy));
        mapped = λ o page known hp valid. absurd (
            ground (
              arith,
              ap (λ m. is_valid (lo m o page)) c.supports,
              none_valid o page known hp,
              valid,
            ));
      }

-- No entry of the page table of a new process is valid.
pub user_support-invalid :
    (link : SupportLink) (i : ℕ) (sup : Support) (page : ℕ)
    → page < pg_max
    → is_valid ((user_support link i sup).sup_private_pg_tbl page).entry_lo ≡ false
unfolding user_support page_table page_entry stack_entry
user_support-invalid link i sup page h =
    let tbl = sup.sup_private_pg_tbl in
    let le : page ≤ 31 = omega (arith, h) in
    elim (eq-or-lt_of_le le) [
      | inl same ↦ rw same refl
      | inr below ↦
          let other : (page == 31) ≡ false = ground arith in
          simp (other, page_entries-lt 31 i tbl page below) refl
    ]

-- A process whose structure is set up joins `user`.
user_support-IsPool :
    (user : ℕ → Bool) (m : ℕ → Support) (pool : ℕ → Frame) (link : SupportLink) (i o : ℕ)
    → IsPool user m pool
    → user o ≡ false
    → IsPool (λ b. (b == o) || user b) (update m o (user_support link i (m o))) pool
user_support-IsPool user m pool link i o inv new =
    let m' = update m o (user_support link i (m o)) in
    record {
      held = λ j hj busy.
          let h = inv.held j hj busy in
          let other : (h.owner == o) ≡ false = elim (Bool-cases (h.owner == o)) [
            | inl e ↦
                let same : h.owner ≡ o = ground arith in
                ground (arith, new, sym (ap user same) ∙ h.known)
            | inr ne ↦ ne
          ] in
          let stays : m' h.owner ≡ m h.owner = ground arith in
          record {
            owner = h.owner;
            page = h.page;
            pgptr = h.pgptr;
            known = ground (arith, h.known);
            id = h.id ∙ ap (λ (x : Support). x.sup_asid) (sym stays);
            page_no = h.page_no;
            entry = ap (λ x. (x.sup_private_pg_tbl h.page).entry_lo) stays ∙ h.entry;
          };
      mapped = λ b page known hp valid. elim (Bool-cases (b == o)) [
        | inl e ↦
            let here : m' b ≡ user_support link i (m o) = ground arith in
            let entry = ap (λ x. is_valid (x.sup_private_pg_tbl page).entry_lo) here in
            absurd (ground (arith, entry, valid, user_support-invalid link i (m o) page hp))
        | inr ne ↦
            let stays : m' b ≡ m b = ground arith in
            let entry = ap (λ x. is_valid (x.sup_private_pg_tbl page).entry_lo) stays in
            inv.mapped b page (ground (arith, known, ne)) hp (sym entry ∙ valid)
      ];
    }

-- The support structures of the processes that are set up before the round `n`.
abbrev pub started : SupportLink → ℕ → ℕ → Bool
started link zero b = false
started link (suc n) b = (b == link.support_array n) || started link n b

-- Where SYS1 and SYS3 on `procSem` return and, like SYS2, which does not return, leave the swap pool in step
-- with the page tables of the user processes that `test` has started, if they find it so (the processes
-- that run meanwhile included), `test` from any state ends with the swap pool in step with the page
-- tables of all user processes that it starts.
pub test-IsPool :
    (syscall : Syscall) (s : Level)
    → ((i : ℕ) (t : Level)
        → i < uproc_max
        → IsPool (started s.link (suc i)) t.supports t.swap_pool
        → Returns
            (λ _ u. IsPool (started s.link (suc i)) u.supports u.swap_pool)
            (syscall 1 (s.link.state_array i) (s.link.support_array i) 0 t))
    → ((i : ℕ) (t : Level)
        → i < uproc_max
        → IsPool (started s.link (suc i)) t.supports t.swap_pool
        → Returns
            (λ _ u. IsPool (started s.link (suc i)) u.supports u.swap_pool)
            (syscall 3 s.link.proc_sem 0 0 t))
    → ((t : Level)
        → IsPool (started s.link uproc_max) t.supports t.swap_pool
        → Stops
            (λ _ u. IsPool (started s.link uproc_max) u.supports u.swap_pool)
            (syscall 2 0 0 0 t))
    → Stops (λ _ t. IsPool (started s.link uproc_max) t.supports t.swap_pool) (test syscall s)
unfolding test
test-IsPool syscall s creates waits ends =
    let link = s.link in
    Returns-then (for_range_inv (λ _ _. Unit) _ 49 0 49 _ refl (λ i t h c. returns tt) tt) λ _ t1 _.
      Returns-then (init_swap_pool-IsPool (λ _. false) t1 (λ o page known. ground arith))
        λ _ t2 inv.
          Returns-then
            (for_range_inv (λ i t. IsPool (started link i) t.supports t.swap_pool) _ uproc_max 0
              uproc_max t2 refl
              (λ i t h c. Returns-mono (round i t (omega (arith, h)) c) λ _ u kept.
                subst (λ n. IsPool (started link n) u.supports u.swap_pool) (sym (add-one i)) kept)
              inv)
            λ _ t3 inv3. Stops-bind _ (ends t3 inv3)
  where
    round :
        (i : ℕ) (t : Level)
        → i ≡ 0
        → IsPool (started s.link i) t.supports t.swap_pool
        → Returns
            (λ _ u. IsPool (started s.link (suc i)) u.supports u.swap_pool)
            (and_then
              (syscall 1 (s.link.state_array i) (s.link.support_array i) 0 (record t {
                states =
                    update t.states
                      (s.link.state_array i)
                      (user_state i (t.states (s.link.state_array i)));
                supports =
                    update t.supports
                      (s.link.support_array i)
                      (user_support s.link i (t.supports (s.link.support_array i)));
              }))
              (λ _ u. and_then (syscall 3 s.link.proc_sem 0 0 u) (λ _ w. ok tt w)))
    round i t first inv =
        let below : i < uproc_max = omega (arith, first) in
        let user = started s.link (suc i) in
        let new : started s.link i (s.link.support_array i) ≡ false = rw first refl in
        Returns-bind
          (creates i _ below (
            user_support-IsPool (started s.link i) t.supports t.swap_pool s.link i
              (s.link.support_array i) inv new))
          λ _ u a. Returns-bind (waits i u below a) λ _ w b. returns b
