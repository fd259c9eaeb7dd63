-- ===== src/Support/PoolStep.antt =====
-- A page leaves its frame, and a page comes into a free one.
use mathlib.Core.Path.{sym}
use os_fall_2021_project.Prelude.{
  ℕ, ◌≡◌, refl, true, false, Bool, ◌<◌, ◌==◌, ◌&&◌, inl, inr, some, update, update_self, arith, ap,
  ◌∙◌, Bool-cases,
}
use os_fall_2021_project.Machine.Types.{Support}
use os_fall_2021_project.Support.{Frame}
use os_fall_2021_project.Support.Vm.{pool_size, set_entry_lo}
use os_fall_2021_project.Support.Pager.{set_entry_lo_same, set_entry_lo_self, set_entry_lo_other}
use os_fall_2021_project.Support.Pool.{
  lo, frame_lo, is_valid, unmap, is_free, free_frame, Held, IsPool, frame_lo-is_valid,
  unmap-frame_lo, names_same, lo_same, Held-apart,
}

module _ (user : ℕ → Bool) (m : ℕ → Support) (pool : ℕ → Frame) (inv : IsPool user m pool) (v : ℕ)
    (hv : v < pool_size) where
  -- The page that the frame holds leaves it.
  pub IsPool-evict :
      (h : Held user m (pool v) v)
      → is_free (pool v) ≡ false
      → IsPool user
          (update m h.owner (set_entry_lo (m h.owner) h.page unmap))
          (update pool v free_frame)
  IsPool-evict h taken =
      let o = h.owner in
      let m' = update m o (set_entry_lo (m o) h.page unmap) in
      let pool' = update pool v free_frame in
      record {
        held = λ i hi busy.
            let ne : (i == v) ≡ false = ground (arith, busy) in
            let same : pool' i ≡ pool i = ground arith in
            let k = inv.held i hi (rw same at busy) in
            let apart : ((k.owner == o) && (k.page == h.page)) ≡ false =
              Held-apart i v k h hi hv ne in
            rw same (record {
              owner = k.owner;
              page = k.page;
              pgptr = k.pgptr;
              known = k.known;
              id =
                  k.id
                  ∙ sym (set_entry_lo_same (λ x. x.sup_asid) m o h.page unmap k.owner (λ x. refl));
              page_no = k.page_no;
              entry = set_entry_lo_other m o h.page unmap k.owner k.page apart ∙ k.entry;
            });
        mapped = λ b q known hq valid. elim (Bool-cases ((b == o) && (q == h.page))) [
          | inl gone ↦
              let out =
                sym (
                  ap is_valid (
                    lo_same m' b q o h.page gone
                    ∙ set_entry_lo_self m o h.page unmap
                    ∙ ap unmap h.entry))
                ∙ valid in
              absurd (ground (arith, out, unmap-frame_lo v hv))
          | inr apart ↦
              let at =
                inv.mapped b q known hq
                  (rw (set_entry_lo_other m o h.page unmap b q apart) at valid) in
              let ne : (at.frame == v) ≡ false = elim (Bool-cases (at.frame == v)) [
                | inl e ↦
                    let is : at.frame ≡ v = ground arith in
                    let names = ap (λ x. (pool x).pgptr) (sym is) ∙ at.names in
                    ground (arith, apart, names_same (pool v).pgptr b q o h.page names h.pgptr)
                | inr e ↦ e
              ] in
              let same : pool' at.frame ≡ pool at.frame = ground arith in
              record {
                frame = at.frame;
                below = at.below;
                taken = rw same at.taken;
                names = ap (λ (f : Frame). f.pgptr) same ∙ at.names;
              }
        ];
      }

module _ (user : ℕ → Bool) (m : ℕ → Support) (pool : ℕ → Frame) (inv : IsPool user m pool) (v : ℕ)
    (hv : v < pool_size) where
  -- A page that is in no frame comes into a free one.
  pub IsPool-load :
      (sup p : ℕ)
      → is_free (pool v) ≡ true
      → user sup ≡ true
      → is_valid (lo m sup p) ≡ false
      → ((m sup).sup_asid == 0xffff_ffff) ≡ false
      → IsPool user
          (update m sup (set_entry_lo (m sup) p (λ _. frame_lo v)))
          (update pool v (record { id = (m sup).sup_asid; page_no = p; pgptr = some (sup, p) }))
  IsPool-load sup p free known missing some_asid =
      let set : ℕ → ℕ = λ _. frame_lo v in
      let m' = update m sup (set_entry_lo (m sup) p set) in
      let new : Frame = record { id = (m sup).sup_asid; page_no = p; pgptr = some (sup, p) } in
      let asid : (b : ℕ) → (m' b).sup_asid ≡ (m b).sup_asid =
        λ b. set_entry_lo_same (λ x. x.sup_asid) m sup p set b (λ x. refl) in
      record {
        held = λ i hi busy. elim (Bool-cases (i == v)) [
          | inl here ↦
              let is : i ≡ v = ground arith in
              rw (is, update_self pool v new)
                (record {
                  owner = sup;
                  page = p;
                  pgptr = refl;
                  known = known;
                  id = sym (asid sup);
                  page_no = refl;
                  entry = set_entry_lo_self m sup p set;
                })
          | inr ne ↦
              let same : update pool v new i ≡ pool i = ground arith in
              let k = inv.held i hi (rw same at busy) in
              let apart : ((k.owner == sup) && (k.page == p)) ≡ false =
                elim (Bool-cases ((k.owner == sup) && (k.page == p))) [
                  | inl e ↦
                      let other = ap is_valid (sym k.entry ∙ lo_same m k.owner k.page sup p e) in
                      ground (arith, other, missing, frame_lo-is_valid i hi)
                  | inr e ↦ e
                ] in
              rw same (record {
                owner = k.owner;
                page = k.page;
                pgptr = k.pgptr;
                known = k.known;
                id = k.id ∙ sym (asid k.owner);
                page_no = k.page_no;
                entry = set_entry_lo_other m sup p set k.owner k.page apart ∙ k.entry;
              })
        ];
        mapped = λ b q known_b hq valid. elim (Bool-cases ((b == sup) && (q == p))) [
          | inl here ↦
              let owner : sup ≡ b = ground arith in
              let page : p ≡ q = ground arith in
              record {
                frame = v;
                below = hv;
                taken = rw (update_self pool v new) some_asid;
                names =
                    ap (λ (f : Frame). f.pgptr) (update_self pool v new)
                    ∙ ap (λ x. some (x, p)) owner
                    ∙ ap (λ x. some (b, x)) page;
              }
          | inr apart ↦
              let at =
                inv.mapped b q known_b hq
                  (rw (set_entry_lo_other m sup p set b q apart) at valid) in
              let ne : (at.frame == v) ≡ false = elim (Bool-cases (at.frame == v)) [
                | inl e ↦
                    let is : at.frame ≡ v = ground arith in
                    let taken = ap (λ x. is_free (pool x)) (sym is) ∙ at.taken in
                    ground (arith, taken, free)
                | inr e ↦ e
              ] in
              let same : update pool v new at.frame ≡ pool at.frame = ground arith in
              record {
                frame = at.frame;
                below = at.below;
                taken = rw same at.taken;
                names = ap (λ (f : Frame). f.pgptr) same ∙ at.names;
              }
        ];
      }
