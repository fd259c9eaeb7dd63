-- ===== src/Pcb/Children.antt =====
-- What the operations of the process tree do to the children of a pcb.
use mathlib.Core.Path.{subst, sym}
use os_fall_2021_project.Prelude.{
  ℕ, zero, suc, ◌<◌, ◌≡◌, ◌≢◌, refl, inl, inr, true, false, List, [], ◌∷◌, arith, ◌==◌, update, has,
  AllTrue, Distinct, length, length-le_of_Distinct, drop_all, Bool-cases, ==_refl, drop_all-middle,
  drop_all_ne, has-drop_all, Distinct-drop_all, AllTrue-drop_all, update_self, ◌∙◌, ap,
}
use os_fall_2021_project.Machine.Word.{null, max_proc}
use os_fall_2021_project.Machine.Outcome.{ok, Returns, returns, Returns-ok, Returns-mono}
use os_fall_2021_project.Pcb.{Procs, is_pcb}
use os_fall_2021_project.Pcb.Tree.{insert_child, remove_child, out_child, out_child_loop}

-- From `a` the links lead through `cs` to `null`.
abbrev pub Siblings : (next_sib : ℕ → ℕ) → ℕ → List ℕ → Type 0
Siblings n a [] = a ≡ null
Siblings n a (c ∷ cs) = (a ≡ c) × Siblings n (n c) cs

-- The children of `prnt`, the one that was inserted last first.
pub record Children (s : Procs) (prnt : ℕ) (cs : List ℕ) : Type 0 where
  pub chain : Siblings s.p_next_sib (s.p_child prnt) cs
  pub distinct : Distinct cs
  pub valid : AllTrue is_pcb cs

Siblings-frame :
    (n n' : ℕ → ℕ) (a : ℕ) (cs : List ℕ)
    → Siblings n a cs
    → ((b : ℕ) → has b cs ≡ true → n' b ≡ n b)
    → Siblings n' a cs
Siblings-frame n n' a [] h same = h
Siblings-frame n n' a (c ∷ cs) h same =
    let e = same c (ground arith) in
    (h.0, rw e (Siblings-frame n n' (n c) cs h.1 (λ b m. same b (ground arith))))

pub Children-frame :
    {s s' : Procs} (prnt : ℕ) (cs : List ℕ)
    → Children s prnt cs
    → s'.p_child prnt ≡ s.p_child prnt
    → ((b : ℕ) → has b cs ≡ true → s'.p_next_sib b ≡ s.p_next_sib b)
    → Children s' prnt cs
Children-frame {s} {s'} prnt cs c first same = record {
  chain =
      subst (λ a. Siblings s'.p_next_sib a cs) (sym first)
        (Siblings-frame s.p_next_sib s'.p_next_sib (s.p_child prnt) cs c.chain same);
  distinct = c.distinct;
  valid = c.valid;
}

-- Outside `xs` the sibling links have not changed, nor has any first child but that of `prnt`, nor anything
-- but the tree.
abbrev pub SameTree : ℕ → List ℕ → Procs → Procs → Type 0
SameTree prnt xs s s' =
    ((b : ℕ) → has b xs ≡ false → s'.p_next_sib b ≡ s.p_next_sib b)
    × ((b : ℕ) → b ≢ prnt → s'.p_child b ≡ s.p_child b)
    × (s' ≡ record s {
      p_child = s'.p_child;
      p_prnt = s'.p_prnt;
      p_next_sib = s'.p_next_sib;
      p_prev_sib = s'.p_prev_sib;
    })

-- The pcb `p` in front of the children of `prnt`, which has some.
abbrev sibling_put : Procs → (prnt p : ℕ) → Procs
sibling_put s prnt p = record s {
  p_child = update s.p_child prnt p;
  p_next_sib = update s.p_next_sib p (s.p_child prnt);
  p_prev_sib = update s.p_prev_sib (s.p_child prnt) p;
}

insert_child-cons :
    (s : Procs) (prnt p : ℕ)
    → is_pcb prnt ≡ true
    → is_pcb p ≡ true
    → is_pcb (s.p_child prnt) ≡ true
    → insert_child prnt p s ≡ ok tt (sibling_put s prnt p)
unfolding insert_child
insert_child-cons s prnt p hprnt hp hx =
    let nn : (p == null) ≡ false = ground arith in
    let some_yet : (s.p_child prnt == null) ≡ false = ground arith in
    simp (nn, hprnt, hp, some_yet, hx, ==_refl)

module _ {s : Procs} {prnt : ℕ} (hprnt : is_pcb prnt ≡ true) where
  -- A pcb that is inserted comes in front of the children of its parent.
  pub insert_child-Children :
      (cs : List ℕ) (p : ℕ)
      → Children s prnt cs
      → is_pcb p ≡ true
      → has p cs ≡ false
      → Returns
          (λ _ s'. Children s' prnt (p ∷ cs) × SameTree prnt (p ∷ cs) s s')
          (insert_child prnt p s)
  unfolding insert_child
  insert_child-Children [] p c hp out =
      let nn : (p == null) ≡ false = ground arith in
      let none_yet : (s.p_child prnt == null) ≡ true = ground (arith, c.chain) in
      simp (nn, hprnt, hp, none_yet)
        (returns (
          record { chain = (ground arith, ground arith); distinct = (refl, tt); valid = (hp, tt) },
          (λ b m. ground arith, λ b m. ground arith, refl),
        ))
  insert_child-Children (x ∷ cs) p c hp out =
      let hx : is_pcb (s.p_child prnt) ≡ true = ground (arith, c.chain) in
      rw (insert_child-cons s prnt p hprnt hp hx) (
        returns (
          record {
            chain = (
              ground arith,
              Siblings-frame s.p_next_sib (update s.p_next_sib p (s.p_child prnt)) _ (x ∷ cs)
                  (ground arith) (λ b m. ground arith),
            );
            distinct = (out, c.distinct);
            valid = (hp, c.valid);
          },
          (λ b m. ground arith, λ b m. ground arith, refl),
        ))

  -- The pcb that was inserted last is taken away, and the others stay.
  pub remove_child-Children :
      (p : ℕ) (cs : List ℕ)
      → Children s prnt (p ∷ cs)
      → Returns
          (λ r s'. (r ≡ p) × Children s' prnt cs × SameTree prnt [] s s')
          (remove_child prnt s)
  unfolding remove_child
  remove_child-Children p cs c =
      let nn : (s.p_child prnt == null) ≡ false = ground (arith, c.chain) in
      let hp : is_pcb (s.p_child prnt) ≡ true = ground (arith, c.chain) in
      simp (hprnt, nn, hp)
        (returns (
          c.chain.0,
          record {
            chain =
                subst (λ a. Siblings s.p_next_sib a cs) (sym (update_self s.p_child prnt _) ∙ refl)
                  (rw c.chain.0 c.chain.1);
            distinct = c.distinct.1;
            valid = c.valid.1;
          },
          (λ b m. refl, λ b m. ground arith, refl),
        ))

-- The walk of `outChild` from the link of `l` on, where `p` is still ahead.
out_child_loop-Siblings :
    (fuel : ℕ) (s : Procs) (l : ℕ) (cs : List ℕ) (p : ℕ)
    → is_pcb l ≡ true
    → Siblings s.p_next_sib (s.p_next_sib l) cs
    → Distinct (l ∷ cs)
    → AllTrue is_pcb cs
    → has p cs ≡ true
    → length cs < fuel
    → Returns
        (λ r s'.
          (r ≡ p)
          × Siblings s'.p_next_sib (s'.p_next_sib l) (drop_all p cs)
          × ((b : ℕ) → has b (l ∷ cs) ≡ false → s'.p_next_sib b ≡ s.p_next_sib b)
          × (s'.p_child ≡ s.p_child))
        (out_child_loop fuel p l (s.p_next_sib l) s)
unfolding out_child_loop
out_child_loop-Siblings zero s l cs p hl ch d v m h = absurd (omega arith)
out_child_loop-Siblings (suc fuel) s l [] p hl ch d v m h = ground arith
out_child_loop-Siblings (suc fuel) s l (c ∷ cs) p hl ch d v m h =
    let nn : (s.p_next_sib l == null) ≡ false = ground arith in
    elim (Bool-cases (c == p)) [
      | inl e ↦
          let e' : (s.p_next_sib l == p) ≡ true = ground arith in
          let hp : is_pcb p ≡ true = ground arith in
          let same : p ≡ c = ground arith in
          let left : drop_all p (c ∷ cs) ≡ cs = rw same (drop_all-middle [] c cs d.1) in
          let n' = update s.p_next_sib l (s.p_next_sib p) in
          let moved : Siblings n' (n' l) cs =
            subst (λ a. Siblings n' a cs) (sym (update_self s.p_next_sib l (s.p_next_sib p)))
              (Siblings-frame s.p_next_sib n' (s.p_next_sib p) cs (rw same ch.1)
                (λ b m. ground arith)) in
          simp (nn, e', hp, hl) (returns (refl, rw left moved, λ b o. ground arith, refl))
      | inr ne ↦
          let ne' : (s.p_next_sib l == p) ≡ false = ground arith in
          let hc : is_pcb (s.p_next_sib l) ≡ true = ground arith in
          simp (nn, ne', hc)
            (rw ch.0 (
              Returns-mono
                (out_child_loop-Siblings fuel s c cs p v.0 ch.1 d.1 v.1 (ground arith)
                  (omega arith))
                λ r s' (e, rest, out, kids). (
                  e,
                  rw (drop_all_ne p c cs ne) (out l d.0 ∙ ch.0, rest),
                  λ b o. out b (ground arith),
                  kids,
                )))
    ]

out_child_loop-step :
    (fuel p l c : ℕ) (s : Procs)
    → (c == null) ≡ false
    → (c == p) ≡ false
    → is_pcb c ≡ true
    → out_child_loop (suc fuel) p l c s ≡ out_child_loop fuel p c (s.p_next_sib c) s
unfolding out_child_loop
out_child_loop-step fuel p l c s nn ne hc = simp (nn, ne, hc)

module _ {s : Procs} (p : ℕ) where
  -- A child that knows its parent is taken away, wherever it stands among its siblings.
  pub out_child-Children :
      (cs : List ℕ)
      → is_pcb p ≡ true
      → is_pcb (s.p_prnt p) ≡ true
      → Children s (s.p_prnt p) cs
      → has p cs ≡ true
      → Returns (λ r s'. (r ≡ p) × Children s' (s.p_prnt p) (drop_all p cs)) (out_child p s)
  unfolding out_child
  out_child-Children [] hp hprnt c m = ground arith
  out_child-Children (x ∷ cs) hp hprnt c m =
      let bound = length-le_of_Distinct max_proc (x ∷ cs) c.distinct c.valid in
      let nn : (s.p_prnt p == null) ≡ false = ground arith in
      elim (Bool-cases (x == p)) [
        | inl e ↦
            let e' : (s.p_child (s.p_prnt p) == p) ≡ true = ground (arith, c.chain) in
            simp (hp, nn, hprnt, e')
              (Returns-mono (remove_child-Children hprnt x cs c) λ r s' (got, left, same).
                let is : p ≡ x = ground arith in
                let gone : drop_all p (x ∷ cs) ≡ cs = rw is (drop_all-middle [] x cs c.distinct) in
                (got ∙ sym is, rw gone left))
        | inr ne ↦
            let e' : (s.p_child (s.p_prnt p) == p) ≡ false = ground (arith, c.chain) in
            simp (hp, nn, hprnt, e')
              (rw (c.chain.0, out_child_loop-step max_proc p null x s (ground arith) ne c.valid.0)
                (Returns-mono
                  (out_child_loop-Siblings max_proc s x cs p c.valid.0 c.chain.1 c.distinct
                    c.valid.1 (ground arith) (ground (arith, bound)))
                  λ r s' (got, rest, out, kids). (
                    got,
                    rw (drop_all_ne p x cs ne) (record {
                      chain = (ap (λ f. f (s.p_prnt p)) kids ∙ c.chain.0, rest);
                      distinct =
                          (has-drop_all x p cs c.distinct.0, Distinct-drop_all p cs c.distinct.1);
                      valid = (c.valid.0, AllTrue-drop_all is_pcb p cs c.valid.1);
                    }),
                  )))
      ]

  -- A pcb without a parent is left alone.
  pub out_child-null : is_pcb p ≡ true → s.p_prnt p ≡ null → out_child p s ≡ ok null s
  unfolding out_child
  out_child-null hp e = simp (hp, e)

-- A pcb without a parent that is inserted among children that are there already is a child from then
-- on, and still has no parent: `outChild` does not take it away.
pub insert_child-out_child :
    {s : Procs} (prnt p x : ℕ) (cs : List ℕ)
    → Children s prnt (x ∷ cs)
    → is_pcb prnt ≡ true
    → is_pcb p ≡ true
    → has p (x ∷ cs) ≡ false
    → s.p_prnt p ≡ null
    → Returns
        (λ _ s'. Children s' prnt (p ∷ x ∷ cs) × (out_child p s' ≡ ok null s'))
        (insert_child prnt p s)
insert_child-out_child {s} prnt p x cs c hprnt hp out orphan =
    let hx : is_pcb (s.p_child prnt) ≡ true = ground (arith, c.chain) in
    let put = insert_child-cons s prnt p hprnt hp hx in
    let kids = rw put at (insert_child-Children hprnt (x ∷ cs) p c hp out) in
    rw put (returns ((Returns-ok kids).0, out_child-null p hp orphan))
