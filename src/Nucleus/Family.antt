-- ===== src/Nucleus/Family.antt =====
-- The tree below a pcb: its first child through `p_child`, and the siblings through `p_next_sib`.
use mathlib.Core.List.{append-nil}
use os_fall_2021_project.Prelude.{
  ℕ, ◌≡◌, true, false, List, [], ◌∷◌, ◌++◌, arith, has, has-append, Distinct, Distinct-left,
  Distinct-middle, Distinct-apart, AllTrue, AllTrue-append,
}
use os_fall_2021_project.Machine.Word.{null}
use os_fall_2021_project.Pcb.{Procs, is_pcb}

-- A pcb, the families of its first child and of its next sibling.
pub data Family : Type 0 where
  no_kin : Family
  kin : (p : ℕ) (children siblings : Family) → Family

-- The pcbs in the order in which they end: the children of each before itself.
abbrev pub members_of : Family → List ℕ
members_of no_kin = []
members_of (kin p children siblings) = (members_of children ++ p ∷ []) ++ members_of siblings

-- The links from `a` on spell the family.
abbrev pub IsFamily : Procs → ℕ → Family → Type 0
IsFamily s a no_kin = a ≡ null
IsFamily s a (kin p children siblings) =
    (a ≡ p)
    × (is_pcb p ≡ true)
    × IsFamily s (s.p_child p) children
    × IsFamily s (s.p_next_sib p) siblings

module _ (p : ℕ) (children siblings : Family) where
  pub has_child :
      (b : ℕ)
      → has b (members_of children) ≡ true
      → has b (members_of (kin p children siblings)) ≡ true
  has_child b h = ground (
    arith,
    has-append b (members_of children ++ p ∷ []) (members_of siblings),
    has-append b (members_of children) (p ∷ []),
  )

  pub has_self : has p (members_of (kin p children siblings)) ≡ true
  has_self = ground (
    arith,
    has-append p (members_of children ++ p ∷ []) (members_of siblings),
    has-append p (members_of children) (p ∷ []),
  )

  pub has_sibling :
      (b : ℕ)
      → has b (members_of siblings) ≡ true
      → has b (members_of (kin p children siblings)) ≡ true
  has_sibling b h =
      ground (arith, has-append b (members_of children ++ p ∷ []) (members_of siblings))

  module _ (d : Distinct (members_of (kin p children siblings))) where
    pub Distinct-children : Distinct (p ∷ members_of children)
    Distinct-children =
        let both =
          Distinct-middle (members_of children) p []
            (Distinct-left (members_of children ++ p ∷ []) (members_of siblings) d) in
        let end = append-nil {0} (members_of children) in (rw end at both.1, rw end at both.0)

    pub sibling-apart :
        (b : ℕ) → has b (members_of siblings) ≡ true → has b (members_of children ++ p ∷ []) ≡ false
    sibling-apart b h =
        ground (arith, Distinct-apart b (members_of children ++ p ∷ []) (members_of siblings) d)

-- It depends on the links of its members.
pub IsFamily-frame :
    (s s' : Procs) (a : ℕ) (fam : Family)
    → IsFamily s a fam
    → ((b : ℕ) → has b (members_of fam) ≡ true → s'.p_child b ≡ s.p_child b)
    → ((b : ℕ) → s'.p_next_sib b ≡ s.p_next_sib b)
    → IsFamily s' a fam
IsFamily-frame s s' a no_kin h kids sibs = h
IsFamily-frame s s' a (kin p children siblings) h kids sibs = (
  h.0,
  h.1,
  rw (kids p (has_self p children siblings)) (
      IsFamily-frame s s' (s.p_child p) children h.2
        (λ b m. kids b (has_child p children siblings b m)) sibs),
  rw (sibs p) (
      IsFamily-frame s s' (s.p_next_sib p) siblings h.3
        (λ b m. kids b (has_sibling p children siblings b m)) sibs),
)

pub IsFamily-valid :
    (s : Procs) (a : ℕ) (fam : Family) → IsFamily s a fam → AllTrue is_pcb (members_of fam)
IsFamily-valid s a no_kin h = tt
IsFamily-valid s a (kin p children siblings) (first, hp, below, beside) =
    AllTrue-append is_pcb (members_of children ++ p ∷ []) (members_of siblings)
      (AllTrue-append is_pcb (members_of children) (p ∷ [])
        (IsFamily-valid s (s.p_child p) children below) (hp, tt))
      (IsFamily-valid s (s.p_next_sib p) siblings beside)
