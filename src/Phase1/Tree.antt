-- ===== src/Phase1/Tree.antt =====
-- The process tree of phase1/pcb.c.
use os_fall_2021_project.Prelude.{
  ℕ, ◌≡◌, refl, true, false, inl, inr, Bool-cases, ◌||◌, not, ◌==◌, if◌then◌else◌, arith, update,
  update_self,
}
use os_fall_2021_project.Machine.Word.{null}
use os_fall_2021_project.Machine.Outcome.{M, pure, ◌>>=◌, ◌>>◌, Returns, returns}
use os_fall_2021_project.Pcb.{
  Procs, is_pcb, load, store, set_prnt, set_child, set_next_sib, set_prev_sib,
}
use os_fall_2021_project.Pcb.Tree.{get_child, get_prnt, get_next_sib, get_prev_sib, empty_child}

-- The last write makes `p` its own parent.
unfoldable pub insert_child : (prnt p : ℕ) → M Procs (Unit {0})
unfolding load store empty_child
insert_child prnt p = do
  none_yet ← empty_child prnt
  if not none_yet
      then (do new_sib ← get_child prnt; set_next_sib p new_sib; set_prev_sib new_sib p)
      else pure tt
  set_child prnt p
  set_prnt p p

unfoldable pub remove_child : ℕ → M Procs ℕ
unfolding load store empty_child
remove_child p = do
  none_left ← empty_child p
  if none_left
      then pure null
      else do temp ← get_child p; set_child p (← get_next_sib temp); pure temp

unfoldable pub out_child : ℕ → M Procs ℕ
unfolding load store
out_child p = do
  prnt ← get_prnt p
  if prnt == null then pure null else do
    prev_temp ← get_prev_sib p
    next_temp ← get_next_sib p
    if not (prev_temp == null) then set_next_sib prev_temp next_temp else pure tt
    if not (next_temp == null) then set_prev_sib next_temp prev_temp else pure tt
    pure p

-- A new child of which `outChild` says that it is taken away is the first child still: `insertChild`
-- and `outChild` run one after the other, the pcb without siblings before.
pub insert_child-out_child_stays :
    (s : Procs) (prnt p : ℕ)
    → is_pcb prnt ≡ true
    → is_pcb p ≡ true
    → (s.p_child prnt == null || is_pcb (s.p_child prnt)) ≡ true
    → (s.p_child prnt == p) ≡ false
    → s.p_prev_sib p ≡ null
    → s.p_next_sib p ≡ null
    → Returns
        (λ r s'. (r ≡ p) × (s'.p_child prnt ≡ p) × (s'.p_prnt p ≡ p))
        ((insert_child prnt p >> out_child p) s)
unfolding insert_child out_child
insert_child-out_child_stays s prnt p hq hp hc ne hv hn =
    let child = s.p_child prnt in
    let p_ne : (p == null) ≡ false = ground arith in
    elim (Bool-cases (child == null)) [
      | inl none_yet ↦
          simp (hq, hp, none_yet, update_self, p_ne, hv, hn)
            (returns (refl, update_self s.p_child prnt p, update_self s.p_prnt p p))
      | inr some_yet ↦
          let hc' : is_pcb child ≡ true = ground arith in
          let kept : update s.p_prev_sib child p p ≡ null = ground arith in
          simp (hq, hp, some_yet, hc', update_self, p_ne, kept)
            (returns (refl, update_self s.p_child prnt p, update_self s.p_prnt p p))
    ]
