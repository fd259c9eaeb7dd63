-- ===== src/Pcb/Insert.antt =====
-- `insertProcQ` puts a pcb at the tail.
use os_fall_2021_project.Prelude.{
  ℕ, ◌≡◌, refl, true, false, List, [], ◌∷◌, arith, has, update, ◌==◌, ne_of_has, Distinct,
  AllTrue-has,
}
use os_fall_2021_project.Machine.Word.{null}
use os_fall_2021_project.Machine.Outcome.{ok, Returns, returns}
use os_fall_2021_project.Pcb.{Procs, is_pcb, insert_proc_q}
use os_fall_2021_project.Pcb.Seg.{Seg, Seg-relink, Seg-last, last, has-last}
use os_fall_2021_project.Pcb.Ring.{IsRing, OnlyLinks}

-- The links after the insertion of `p` into the ring with tail `x`.
abbrev linked : Procs → (p x : ℕ) → Procs
linked s p x = record s {
  p_next = update (update s.p_next p x) (s.p_prev x) p;
  p_prev = update (update s.p_prev p (s.p_prev x)) x p;
}

insert_proc_q-cons :
    (s : Procs) (p x : ℕ)
    → is_pcb p ≡ true
    → is_pcb x ≡ true
    → is_pcb (s.p_prev x) ≡ true
    → (x == null) ≡ false
    → (p == x) ≡ false
    → insert_proc_q x p s ≡ ok p (linked s p x)
unfolding insert_proc_q
insert_proc_q-cons s p x hp hx hl nn ne = ground arith

insert_proc_q-nil :
    (s : Procs) (p : ℕ)
    → is_pcb p ≡ true
    → insert_proc_q null p s
      ≡ ok p (record s { p_next = update s.p_next p p; p_prev = update s.p_prev p p })
unfolding insert_proc_q
insert_proc_q-nil s p hp = ground arith

-- The pcb is the new tail, in front of the others, and nothing else changes.
abbrev pub Inserted : Procs → ℕ → List ℕ → ℕ → Procs → Type 0
Inserted s p xs tp' s' = (tp' ≡ p) × IsRing s' tp' (p ∷ xs) × OnlyLinks (p ∷ xs) s s'

Seg-linked :
    (s : Procs) (p x : ℕ) (xs : List ℕ)
    → Seg s.p_next s.p_prev x xs x
    → Distinct (x ∷ xs)
    → has p (x ∷ xs) ≡ false
    → Seg (linked s p x).p_next (linked s p x).p_prev x xs p
Seg-linked s p x xs links d out =
    let e = (Seg-last s.p_next s.p_prev x xs x links).1 in
    Seg-relink s.p_next s.p_prev (linked s p x).p_next (linked s p x).p_prev x xs x p links d
      (λ b m ne. ground arith) (λ b m. ground arith) (ground arith) (ground arith)

pub insert_proc_q-ring :
    {s : Procs} {tp : ℕ} (xs : List ℕ) (p : ℕ)
    → IsRing s tp xs
    → is_pcb p ≡ true
    → has p xs ≡ false
    → Returns (Inserted s p xs) (insert_proc_q tp p s)
insert_proc_q-ring {s} [] p r hp out =
    rw (r.tail, insert_proc_q-nil s p hp)
      (returns (
        refl,
        record {
          tail = refl;
          links = (ground arith, ground arith);
          distinct = (refl, tt);
          valid = (hp, tt);
        },
        record { next_out = λ b m. ground arith; prev_out = λ b m. ground arith; rest = refl },
      ))
insert_proc_q-ring {s} (x ∷ xs) p r hp out =
    let links = r.links in
    let last_pcb = AllTrue-has is_pcb (last x xs) (x ∷ xs) r.valid (has-last x xs) in
    let e = (Seg-last s.p_next s.p_prev x xs x r.links).1 in
    let apart = ne_of_has p (last x xs) (x ∷ xs) out (has-last x xs) in
    rw (r.tail, insert_proc_q-cons s p x hp r.valid.0 (rw e last_pcb) (ground arith) (ground arith))
      (returns (
        refl,
        record {
          tail = refl;
          links = (ground arith, ground arith, Seg-linked s p x xs r.links r.distinct out);
          distinct = (out, r.distinct);
          valid = (hp, r.valid);
        },
        record {
          next_out = λ b m. ground (arith, ne_of_has b (last x xs) (x ∷ xs), has-last x xs);
          prev_out = λ b m. ground arith;
          rest = refl;
        },
      ))
