-- ===== src/Asl/Traverse.antt =====
-- `traverseASL` finds the last descriptor below a semaphore address.
use mathlib.Core.Path.{subst, sym}
use os_fall_2021_project.Prelude.{
  ℕ, zero, suc, ◌<◌, ◌≤◌, ◌≡◌, refl, true, List, [], ◌∷◌, ◌++◌, arith, has, AllTrue, in_range,
  length, AllTrue-has, AllTrue-left, has-append, length-le_of_Distinct, Distinct-left,
  AllTrue-of_has, Bool-cases, inl, inr, ◌==◌,
}
use os_fall_2021_project.Machine.Word.{null, max_proc}
use os_fall_2021_project.Machine.Outcome.{ok}
use os_fall_2021_project.Pcb.{Procs}
use os_fall_2021_project.Pcb.Seg.{last, has-last}
use os_fall_2021_project.Asl.{Semds, Asl, is_semd, semd_max, traverse_loop, traverse_asl}
use os_fall_2021_project.Asl.Entries.{
  Entry, semds_of, Run, IsAsl, dummy_head, dummy_tail, behind, ahead, behind-ahead, semds_of-append,
}

-- The descriptor at which a list of entries starts.
abbrev pub start_of : List Entry → ℕ
start_of [] = dummy_tail
start_of (e ∷ es) = e.semd

module _ (sd : Semds) (pr : Procs) where
  traverse_loop-last :
      (fuel k a : ℕ) (es : List Entry)
      → Run sd pr a es
      → sd.s_next (last a (semds_of es)) ≡ dummy_tail
      → sd.s_sem_add dummy_tail ≡ null
      → k ≤ null
      → AllTrue is_semd (a ∷ semds_of es)
      → length es < fuel
      → traverse_loop fuel k a sd ≡ ok (last a (semds_of (behind k es))) sd
  unfolding traverse_loop last behind
  traverse_loop-last zero k a es r e t small v h = absurd (omega arith)
  traverse_loop-last (suc fuel) k a [] r e t small v h = ground arith
  traverse_loop-last (suc fuel) k a (x ∷ es) r e t small v h =
      let key = r.1.key in ground (arith, traverse_loop-last fuel k x.semd es r.2)

  start-next :
      (a : ℕ) (xs ys : List Entry)
      → Run sd pr a (xs ++ ys)
      → sd.s_next (last a (semds_of (xs ++ ys))) ≡ dummy_tail
      → sd.s_next (last a (semds_of xs)) ≡ start_of ys
  unfolding last
  start-next a [] [] r e = e
  start-next a [] (y ∷ ys) r e = r.0
  start-next a (x ∷ xs) ys r e = start-next x.semd xs ys r.2 e

pub is_semd_of : (b : ℕ) → in_range max_proc b ≡ true → is_semd b ≡ true
is_semd_of b h = ground arith

module _ {s : Asl} {es : List Entry} {fs : List ℕ} (inv : IsAsl s es fs) where
  pub semd-valid : (b : ℕ) → has b (semds_of es) ≡ true → in_range max_proc b ≡ true
  semd-valid b m =
      AllTrue-has (in_range max_proc) b (semds_of es ++ fs) inv.valid
        (ground (arith, has-append b (semds_of es) fs))

  length-semds_of : (xs : List Entry) → length (semds_of xs) ≡ length xs
  length-semds_of [] = refl
  length-semds_of (x ∷ xs) = omega (arith, length-semds_of xs)

  -- The walk ends at the last descriptor below `k`, and changes nothing.
  pub traverse_asl-last :
      (k : ℕ)
      → k ≤ null
      → traverse_asl k s.semds ≡ ok (last dummy_head (semds_of (behind k es))) s.semds
  unfolding traverse_asl
  traverse_asl-last k small =
      let bound =
        length-le_of_Distinct max_proc (semds_of es) (Distinct-left (semds_of es) fs inv.distinct)
          (AllTrue-left (in_range max_proc) (semds_of es) fs inv.valid) in
      simp inv.head (
        traverse_loop-last s.semds s.procs semd_max k dummy_head es inv.run inv.end inv.top small
          (refl, AllTrue-of_has is_semd (semds_of es) (λ b m. is_semd_of b (semd-valid b m)))
          (omega (arith, bound, length-semds_of es)))

  -- Behind it stands the first entry that is not below `k`, or the dummy node.
  pub spot-next :
      (k : ℕ) → s.semds.s_next (last dummy_head (semds_of (behind k es))) ≡ start_of (ahead k es)
  spot-next k =
      start-next s.semds s.procs dummy_head (behind k es) (ahead k es)
        (subst (λ l. Run s.semds s.procs dummy_head l) (sym (behind-ahead k es)) inv.run)
        (subst (λ l. s.semds.s_next (last dummy_head (semds_of l)) ≡ dummy_tail)
          (sym (behind-ahead k es)) inv.end)

  pub has-behind : (k b : ℕ) → has b (semds_of (behind k es)) ≡ true → has b (semds_of es) ≡ true
  has-behind k b m =
      subst (λ l. has b (semds_of l) ≡ true) (behind-ahead k es)
        (rw (semds_of-append (behind k es) (ahead k es))
          (ground (arith, has-append b (semds_of (behind k es)) (semds_of (ahead k es)))))

  -- That descriptor is one.
  pub spot-valid : (k : ℕ) → is_semd (last dummy_head (semds_of (behind k es))) ≡ true
  spot-valid k =
      let m = has-last dummy_head (semds_of (behind k es)) in
      let b = last dummy_head (semds_of (behind k es)) in
      elim (Bool-cases (b == dummy_head)) [
        | inl e ↦ ground arith
        | inr ne ↦ is_semd_of b (semd-valid b (has-behind k b (ground arith)))
      ]
