-- ===== src/Support/Paging.antt =====
-- A page fault keeps the swap pool and the page tables in step.
use Prim.Native.Nat.{bit_and}
use mathlib.Core.Path.{subst}
use os_fall_2021_project.Prelude.{
  ℕ, sym, ◌+◌, ◌%◌, ◌≡◌, refl, true, false, Bool, ◌/◌, ◌<◌, ◌==◌, ◌&&◌, inl, inr, [], some, update,
  update_self, update_again, arith, ap, ◌∙◌, Bool-cases,
}
use os_fall_2021_project.Machine.Types.{State, Support}
use os_fall_2021_project.Machine.Outcome.{
  Stop, load_state, Stops, stops, Returns, returns, Returns-then, Returns-eq, Stops-mono,
}
use os_fall_2021_project.Support.{L, Level, Syscall, Frame, map_status}
use os_fall_2021_project.Support.Vm.{
  pick_victim, flash_io, invalidate, evict, load_page, replace_page, tlb_exception_handler,
  pool_size, set_entry_lo, flash_read, missing_no,
}
use os_fall_2021_project.Support.Pager.{
  next_victim, missed, set_entry_lo_same, set_entry_lo_self, set_entry_lo_other,
}
use os_fall_2021_project.Support.PoolStep.{IsPool-evict, IsPool-load}
use os_fall_2021_project.Support.Serves.{Keeps, Serves, Keeps-IsPool}
use os_fall_2021_project.Support.Flash.{flash_io-reads, flash_io-writes}
use os_fall_2021_project.Support.Pool.{
  lo, frame_lo, is_valid, unmap, is_free, free_frame, IsPool, frame_lo-is_valid, lo_same,
}

-- The process at `sup` is resumed in the state `st` with its page `p` in the frame `v`, which is the last victim;
-- the TLB is empty, and the swap pool is in step.
pub record Resumes (user : ℕ → Bool) (sup v p : ℕ) (st : State) (e : Stop) (s : Level)
    : Type 0 where
  pub state : e ≡ load_state st
  pub pool : IsPool user s.supports s.swap_pool
  pub entry : lo s.supports sup p ≡ frame_lo v
  pub names : (s.swap_pool v).pgptr ≡ some (sup, p)
  pub victim : s.victim ≡ v
  pub cleared : s.hw.tlb ≡ []

-- From `s` to `s'` the page in the frame `v` has left it.
record Freed (user : ℕ → Bool) (sup v : ℕ) (s s' : Level) : Type 0 where
  pool : IsPool user s'.supports (update s'.swap_pool v free_frame)
  asid : (s'.supports sup).sup_asid ≡ (s.supports sup).sup_asid
  own : (s'.supports sup).sup_except_state ≡ (s.supports sup).sup_except_state
  entry : lo s'.supports sup (missed s sup) ≡ lo s.supports sup (missed s sup)
  victim : s'.victim ≡ s.victim

-- A free frame may as well be cleared.
IsPool-clear :
    (user : ℕ → Bool) (m : ℕ → Support) (pool : ℕ → Frame) (v : ℕ)
    → is_free (pool v) ≡ true
    → IsPool user m pool
    → IsPool user m (update pool v free_frame)
IsPool-clear user m pool v free inv = record {
  held = λ i hi busy.
      let ne : (i == v) ≡ false = ground (arith, busy) in
      let same : update pool v free_frame i ≡ pool i = ground arith in
      rw same (inv.held i hi (rw same at busy));
  mapped = λ o page known hp valid.
      let at = inv.mapped o page known hp valid in
      let ne : (at.frame == v) ≡ false = elim (Bool-cases (at.frame == v)) [
        | inl e ↦
            let is : at.frame ≡ v = ground arith in
            let taken = ap (λ x. is_free (pool x)) (sym is) ∙ at.taken in
            ground (arith, taken, free)
        | inr e ↦ e
      ] in
      let same : update pool v free_frame at.frame ≡ pool at.frame = ground arith in
      record {
        frame = at.frame;
        below = at.below;
        taken = rw same at.taken;
        names = ap (λ (f : Frame). f.pgptr) same ∙ at.names;
      };
}

module _ {user : ℕ → Bool} {sup : ℕ} {syscall : Syscall} (serves : Serves user sup syscall)
    (known : user sup ≡ true) where
  -- The missing page comes into the frame `v`, which is as good as free.
  load_page-IsPool :
      (t : Level) (v p : ℕ)
      → t.victim ≡ v
      → missed t sup ≡ p
      → v < pool_size
      → IsPool user t.supports (update t.swap_pool v free_frame)
      → is_valid (lo t.supports sup p) ≡ false
      → ((t.supports sup).sup_asid == 0xffff_ffff) ≡ false
      → Stops
          (Resumes user sup v p ((t.supports sup).sup_except_state 0))
          (load_page syscall sup p v t)
  unfolding load_page map_status
  load_page-IsPool t v p last page hv inv missing some_asid =
      let read =
        subst
          (λ p.
            Returns (λ _ u. Keeps sup t u)
              (flash_io syscall flash_read (t.supports sup).sup_asid p t))
          page (flash_io-reads serves t) in
      Returns-then read λ _ u k.
        let entry : lo u.supports sup p ≡ lo t.supports sup p =
          ap (λ f. (f p).entry_lo) (k.tables sup) in
        let new : Frame = record {
          id = (u.supports sup).sup_asid;
          page_no = p;
          pgptr = some (sup, p);
        } in
        let m = update u.supports sup (set_entry_lo (u.supports sup) p (λ _. frame_lo v)) in
        let loaded =
          IsPool-load user u.supports (update u.swap_pool v free_frame)
            (Keeps-IsPool (λ f. update f v free_frame) k inv) v hv sup p (ground arith) known
            (ap is_valid entry ∙ missing) (ap (λ w. w == 0xffff_ffff) (k.asid sup) ∙ some_asid) in
        let inv' : IsPool user m (update u.swap_pool v new) =
          subst (IsPool user m) (update_again u.swap_pool v free_frame new) loaded in
        let own = ap (λ x. x.sup_except_state) (update_self u.supports sup _) in
        Returns-then (serves.leaves _) λ _ z (kz, cleared). stops (record {
          state = ap (λ f. load_state (f 0)) (kz.own ∙ own ∙ k.own);
          pool = Keeps-IsPool (λ f. f) kz inv';
          entry =
              ap (λ f. (f p).entry_lo) (kz.tables sup)
              ∙ set_entry_lo_self u.supports sup p (λ _. frame_lo v);
          names =
              ap (λ f. (f v).pgptr) kz.pool
              ∙ ap (λ (f : Frame). f.pgptr) (update_self u.swap_pool v new);
          victim = kz.victim ∙ k.victim ∙ last;
          cleared = cleared;
        })

  -- The page of an occupied frame goes.
  evict-IsPool :
      (trap : L (Unit {0})) (t : Level) (v : ℕ)
      → v < pool_size
      → IsPool user t.supports t.swap_pool
      → is_free (t.swap_pool v) ≡ false
      → is_valid (lo t.supports sup (missed t sup)) ≡ false
      → Returns (λ _ u. Freed user sup v t u) (evict syscall trap (t.swap_pool v) t)
  unfolding evict invalidate map_status
  evict-IsPool trap t v hv inv taken missing =
      let h = inv.held v hv taken in
      let p = missed t sup in
      let freed = update t.supports h.owner (set_entry_lo (t.supports h.owner) h.page unmap) in
      let apart : ((sup == h.owner) && (p == h.page)) ≡ false =
        elim (Bool-cases ((sup == h.owner) && (p == h.page))) [
          | inl e ↦
              let same = ap is_valid (lo_same t.supports sup p h.owner h.page e ∙ h.entry) in
              ground (arith, same, missing, frame_lo-is_valid v hv)
          | inr e ↦ e
        ] in
      let asid =
        set_entry_lo_same (λ x. x.sup_asid) t.supports h.owner h.page unmap sup (λ x. refl) in
      let own =
        set_entry_lo_same (λ x. x.sup_except_state) t.supports h.owner h.page unmap sup
          (λ x. refl) in
      let begun : Level = record t {
        supports = freed;
        hw = record t.hw { status = bit_and t.hw.status 0xffff_fffe };
      } in
      let (r, u, run, (fine, k)) = Returns-eq (flash_io-writes serves begun v hv taken) in
      simp (h.pgptr, run, fine)
        (returns (record {
          pool =
              Keeps-IsPool (λ f. update f v free_frame) k
                (IsPool-evict user t.supports t.swap_pool inv v hv h taken);
          asid = k.asid sup ∙ asid;
          own = k.own ∙ own;
          entry =
              ap (λ f. (f p).entry_lo) (k.tables sup)
              ∙ set_entry_lo_other t.supports h.owner h.page unmap sup p apart;
          victim = k.victim;
        }))

  -- The part of the pager that uses the swap pool.
  replace_page-IsPool :
      (trap : L (Unit {0})) (t : Level)
      → IsPool user t.supports t.swap_pool
      → is_valid (lo t.supports sup (missed t sup)) ≡ false
      → ((t.supports sup).sup_asid == 0xffff_ffff) ≡ false
      → Stops
          (Resumes user sup (next_victim t) (missed t sup) ((t.supports sup).sup_except_state 0))
          (replace_page syscall trap sup t)
  unfolding replace_page pick_victim missing_no
  replace_page-IsPool trap t inv missing some_asid =
      let v = next_victim t in
      let p = missed t sup in
      let chosen : Level = record t { victim = v } in
      let hv : v < pool_size = omega arith in
      elim (Bool-cases (is_free (t.swap_pool v))) [
        | inl free ↦ rw free (
            load_page-IsPool chosen v p refl refl hv
              (IsPool-clear user t.supports t.swap_pool v free inv) missing some_asid)
        | inr taken ↦
            let (r, u, run, freed) = Returns-eq (evict-IsPool trap chosen v hv inv taken missing) in
            let loaded =
              load_page-IsPool u v p freed.victim (ap (λ f. missing_no (f 0).s_entry_hi) freed.own)
                hv freed.pool (ap is_valid freed.entry ∙ missing)
                (ap (λ w. w == 0xffff_ffff) freed.asid ∙ some_asid) in
            simp (taken, run)
              (subst (λ f. Stops (Resumes user sup v p (f 0)) (load_page syscall sup p v u))
                freed.own loaded)
      ]

-- A page fault of a process in `user` whose number is not that of a free frame, that is no TLB modification, at
-- a page whose entry is not valid, where the swap pool is in step with the page tables of `user` and SYSCALL
-- serves the pager as in `Serves` (others may use the swap pool while the process waits for it, and a
-- flash device writes without an error): whether the next victim is then free or occupied, the process is
-- resumed in the state of the exception with a frame of the pool in the entry of that page and an empty
-- TLB, and frames and page tables are in step as before: each occupied frame holds one page of a process
-- in `user`, whose entry is valid and shows that frame, and each valid page of these processes is in a
-- frame. `Serves` lets SYS5 return only where the flash device of the process has been told to read the
-- missing page, or that of the owner of an occupied frame to write the page in it.
pub tlb_exception_handler-IsPool :
    {user : ℕ → Bool} {sup : ℕ} {syscall : Syscall} (trap : L (Unit {0})) (s : Level)
    → Serves user sup syscall
    → IsPool user s.supports s.swap_pool
    → user sup ≡ true
    → ((s.supports sup).sup_asid == 0xffff_ffff) ≡ false
    → is_valid (lo s.supports sup (missed s sup)) ≡ false
    → (bit_and ((s.supports sup).sup_except_state 0).s_cause 0x7c / 4 == 1) ≡ false
    → Stops
        (λ e t.
          (t.victim < pool_size)
          × Resumes user sup t.victim (missed s sup) ((s.supports sup).sup_except_state 0) e t)
        (tlb_exception_handler syscall trap s)
unfolding tlb_exception_handler missing_no
tlb_exception_handler-IsPool {user} {sup} {syscall} trap s serves inv known some_asid missing
      fault =
    Returns-then (serves.supported s) λ r t (is, k).
      let cause : (bit_and ((t.supports sup).sup_except_state 0).s_cause 0x7c / 4 == 1) ≡ false =
        ap (λ f. bit_and (f 0).s_cause 0x7c / 4 == 1) k.own ∙ fault in
      let page : missed t sup ≡ missed s sup = ap (λ f. missing_no (f 0).s_entry_hi) k.own in
      let missing' : is_valid (lo t.supports sup (missed t sup)) ≡ false =
        ap (λ p. is_valid (lo t.supports sup p)) page
        ∙ ap (λ f. is_valid (f (missed s sup)).entry_lo) (k.tables sup)
        ∙ missing in
      rw (is, cause)
        (Returns-then (serves.enters t (Keeps-IsPool (λ f. f) k inv) missing') λ _ u en.
          let number = ap (λ w. w == 0xffff_ffff) (en.asid ∙ k.asid sup) ∙ some_asid in
          let done = replace_page-IsPool serves known trap u en.pool en.missing number in
          Stops-mono done λ e z h. resumed (u.victim + 1) (en.own ∙ k.own) h)
  where
    resumed :
        {x y : ℕ → State} (v : ℕ) {e : Stop} {z : Level}
        → x ≡ y
        → Resumes user sup (v % pool_size) (missing_no (x 0).s_entry_hi) (x 0) e z
        → (z.victim < pool_size) × Resumes user sup z.victim (missing_no (y 0).s_entry_hi) (y 0) e z
    resumed {x} {y} v {e} {z} same h =
        let is = h.victim in
        (
          omega (arith, is),
          subst (λ f. Resumes user sup z.victim (missing_no (f 0).s_entry_hi) (f 0) e z) same
              (subst (λ w. Resumes user sup w (missing_no (x 0).s_entry_hi) (x 0) e z) (sym is) h),
        )
