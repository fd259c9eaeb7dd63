-- ===== src/Nucleus/Siblings.antt =====
-- A pcb whose first child has ended: the family that is left to it.
use mathlib.Core.List.{append_assoc}
use mathlib.Core.Path.{subst}
use os_fall_2021_project.Prelude.{
  ℕ, ◌≡◌, refl, true, false, List, [], ◌∷◌, ◌++◌, ap, ◌∙◌, arith, ◌==◌, has, has-append, without,
  Distinct, update, update_self, update_ne, Bool-cases, inl, inr,
}
use os_fall_2021_project.Pcb.{Procs}
use os_fall_2021_project.Asl.Entries.{Entry}
use os_fall_2021_project.Nucleus.{Kernel}
use os_fall_2021_project.Nucleus.Live.{Ended, Ended-children, Ended-append, with_children}
use os_fall_2021_project.Nucleus.Family.{
  Family, kin, members_of, IsFamily, IsFamily-frame, has_child, has_self, has_sibling,
  sibling-apart,
}

-- The members of the family leave, and beside theirs only the first child of `c` changes.
abbrev pub Gone :
    (s : Kernel) (ready : List ℕ) (es : List Entry) (free ps : List ℕ) (touched : List ℕ)
    → Kernel
    → Type 0
Gone s ready es free ps touched t =
    Ended s ready es ps (free ++ ps) t
    × ((b : ℕ) → has b touched ≡ false → t.asl.procs.p_child b ≡ s.asl.procs.p_child b)

pub ne_of_member : (a b : ℕ) (xs : List ℕ) → has a xs ≡ true → has b xs ≡ false → (a == b) ≡ false
ne_of_member a b xs m out = elim (Bool-cases (a == b)) [
  | inl e ↦ let same : a ≡ b = ground arith in ground (arith, ap (λ x. has x xs) same)
  | inr ne ↦ ne
]

-- The first child `p` of `c` taken off.
abbrev pub without_first : (s : Kernel) (c p : ℕ) → Kernel
without_first s c p = with_children (update s.asl.procs.p_child c (s.asl.procs.p_next_sib p)) s

module _ (s : Kernel) (c p : ℕ) (ch sb : Family)
    (out : has c (members_of (kin p ch sb)) ≡ false) where
  other_child :
      (b : ℕ)
      → has b (members_of (kin p ch sb)) ≡ true
      → (without_first s c p).asl.procs.p_child b ≡ s.asl.procs.p_child b
  other_child b h = ground (arith, ne_of_member b c (members_of (kin p ch sb)) h out)

  -- The family of `p` is what it was.
  pub family_below :
      IsFamily s.asl.procs (s.asl.procs.p_child p) ch
      → IsFamily (without_first s c p).asl.procs ((without_first s c p).asl.procs.p_child p) ch
  family_below below = rw (other_child p (has_self p ch sb)) (
      IsFamily-frame s.asl.procs (without_first s c p).asl.procs (s.asl.procs.p_child p) ch below
        (λ b h. other_child b (has_child p ch sb b h)) (λ b. refl))

  module _ {ready : List ℕ} {es : List Entry} (free : List ℕ) {t : Kernel}
      (gone : Gone
        (without_first s c p)
        ready
        es
        free
        (members_of ch ++ p ∷ [])
        (members_of ch ++ p ∷ [])
        t) where
    -- With `p` gone, the family of `c` is that of the sibling.
    pub family_beside :
        Distinct (members_of (kin p ch sb))
        → IsFamily s.asl.procs (s.asl.procs.p_next_sib p) sb
        → IsFamily t.asl.procs (t.asl.procs.p_child c) sb
    family_beside d beside =
        let next : t.asl.procs.p_child c ≡ s.asl.procs.p_next_sib p =
          gone.1 c (ground (arith, out, has-append c (members_of ch ++ p ∷ []) (members_of sb)))
          ∙ update_self s.asl.procs.p_child c (s.asl.procs.p_next_sib p) in
        rw next (
          IsFamily-frame s.asl.procs t.asl.procs (s.asl.procs.p_next_sib p) sb beside
            (λ b h.
              gone.1 b (sibling-apart p ch sb d b h) ∙ other_child b (has_sibling p ch sb b h))
            (λ b. ap (λ (x : Procs). x.p_next_sib b) gone.0.procs))

    -- With the siblings gone too, the whole family is.
    pub Gone-siblings :
        {u : Kernel}
        → Gone t
            (without (members_of ch ++ p ∷ []) ready)
            gone.0.es'
            (free ++ (members_of ch ++ p ∷ []))
            (members_of sb)
            (c ∷ members_of sb)
            u
        → Gone s ready es free (members_of (kin p ch sb)) (c ∷ members_of (kin p ch sb)) u
    Gone-siblings {u} rest =
        let front = members_of ch ++ p ∷ [] in
        let next = s.asl.procs.p_next_sib p in
        (
          Ended-children (update s.asl.procs.p_child c next) (front ++ members_of sb) (
              subst (λ l. Ended (without_first s c p) ready es (front ++ members_of sb) l u)
                (append_assoc free front (members_of sb))
                (Ended-append front (members_of sb) gone.0 rest.0)),
          λ b h.
              rest.1 b (ground (arith, has-append b front (members_of sb)))
              ∙ gone.1 b (ground (arith, has-append b front (members_of sb)))
              ∙ update_ne s.asl.procs.p_child c next b (ground arith),
        )
