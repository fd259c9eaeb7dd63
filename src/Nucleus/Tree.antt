-- ===== src/Nucleus/Tree.antt =====
-- `terminateProcess` ends the whole tree below a process.
use mathlib.Core.List.{append_assoc, append-nil}
use mathlib.Core.Path.{subst, sym}
use os_fall_2021_project.Prelude.{
  ℕ, zero, suc, ◌+◌, ◌<◌, ◌≤◌, ◌≡◌, refl, true, false, List, [], ◌∷◌, ◌++◌, ap, ◌∙◌, arith, ◌==◌,
  has, has-append, without, Distinct, Distinct-right, length, length-append, update,
}
use os_fall_2021_project.Machine.Word.{null, max_proc}
use os_fall_2021_project.Machine.Outcome.{Returns, returns, Returns-bind, Returns-mono, and_then}
use os_fall_2021_project.Pcb
use os_fall_2021_project.Pcb.{Procs, is_pcb}
use os_fall_2021_project.Pcb.Tree.{empty_child, remove_child}
use os_fall_2021_project.Asl.Entries.{Entry, pcbs_of}
use os_fall_2021_project.Pcb.Free.{free_pcb}
use os_fall_2021_project.Nucleus.{Kernel, K, on_procs}
use os_fall_2021_project.Nucleus.Exceptions.{terminate_process, children_loop, unqueue}
use os_fall_2021_project.Nucleus.Live.{
  IsLive, IsLive-children, Ended, Ended-none, Ended-append, Ended-queued, Ended-absent,
  with_children,
}
use os_fall_2021_project.Nucleus.Leave.{unqueue-queued}
use os_fall_2021_project.Nucleus.Freed.{free_pcb-Ended}
use os_fall_2021_project.Nucleus.Exit.{children_loop-childless}
use os_fall_2021_project.Nucleus.Family.{
  Family, no_kin, kin, members_of, IsFamily, has_child, has_self, has_sibling, Distinct-children,
  sibling-apart,
}
use os_fall_2021_project.Nucleus.Siblings.{
  Gone, ne_of_member, without_first, family_below, family_beside, Gone-siblings,
}

children_loop-first :
    (n : ℕ) (terminate : ℕ → K (Unit {0})) (c p : ℕ) (s : Kernel)
    → is_pcb c ≡ true
    → is_pcb p ≡ true
    → s.asl.procs.p_child c ≡ p
    → children_loop (suc n) terminate c s
      ≡ and_then
          (terminate p (with_children (update s.asl.procs.p_child c (s.asl.procs.p_next_sib p)) s))
          (λ _. children_loop n terminate c)
unfolding children_loop empty_child remove_child Pcb.load Pcb.store
children_loop-first n terminate c p s hc hp h =
    let some : (p == null) ≡ false = ground arith in simp (hc, h, some, hp) refl

-- A pcb that does not run ends when its children have.
terminate_process-other :
    (fuel p : ℕ) (s : Kernel) {P Q : Kernel → Type 0}
    → Returns (λ _ t. P t) (children_loop (max_proc + 1) (terminate_process fuel) p s)
    → ((t : Kernel)
        → P t
        → Returns
            (λ _ u.
              ((p == u.current_proc) ≡ false) × Returns (λ _ v. Q v) (on_procs (free_pcb p) u))
            (unqueue p t))
    → Returns (λ _ v. Q v) (terminate_process (suc fuel) p s)
unfolding terminate_process
terminate_process-other fuel p s loop leave =
    Returns-bind loop λ _ t h. Returns-bind (leave t h) λ _ u (other, freed). rw other freed

module _ {s : Kernel} {ready : List ℕ} {es : List Entry} {free : List ℕ} where
  -- The step from the children of `p` to `p` itself.
  pcb_ends :
      (p : ℕ) (ps : List ℕ) {fs : List ℕ}
      → IsLive s ready es fs free
      → is_pcb p ≡ true
      → has p ps ≡ false
      → has p (ready ++ pcbs_of es) ≡ true
      → has s.current_proc (ready ++ pcbs_of es) ≡ false
      → (t : Kernel) → Gone s ready es free ps (p ∷ ps) t
      → Returns
          (λ _ u.
            ((p == u.current_proc) ≡ false)
            × Returns
                (λ _ v. Gone s ready es free (ps ++ p ∷ []) (ps ++ p ∷ []) v)
                (on_procs (free_pcb p) u))
          (unqueue p t)
  pcb_ends p ps live hp out queued running t (ended, kids) =
      let still = Ended-queued ended p out queued in
      let not_free : has p (free ++ ps) ≡ false =
        ground (arith, has-append p free ps, live.apart p) in
      Returns-mono (unqueue-queued p ended.es' ended.live still hp) λ _ u (left, same).
        let here : u.current_proc ≡ s.current_proc =
          ap (λ (r : Kernel). r.current_proc) left.rest
          ∙ ap (λ (r : Kernel). r.current_proc) ended.rest in
        (
          rw here (ne_of_member p s.current_proc (ready ++ pcbs_of es) queued running),
          Returns-mono (free_pcb-Ended p left hp not_free) λ _ v (gone, same'). (
            subst (λ l. Ended s ready es (ps ++ p ∷ []) l v) (append_assoc free ps (p ∷ []))
                (Ended-append ps (p ∷ []) ended gone),
            λ b h.
                ap (λ f. f b) same'
                ∙ ap (λ f. f b) same
                ∙ kids b (ground (arith, has-append b ps (p ∷ []))),
          ),
        )

-- The loop over the children of `c`, whose family is `fam`.
pub children_loop-family :
    (fam : Family) (n fuel c : ℕ) (s : Kernel) (ready : List ℕ) {es : List Entry} {fs free : List ℕ}
    → IsLive s ready es fs free
    → is_pcb c ≡ true
    → IsFamily s.asl.procs (s.asl.procs.p_child c) fam
    → has c (members_of fam) ≡ false
    → Distinct (members_of fam)
    → ((b : ℕ) → has b (members_of fam) ≡ true → has b (ready ++ pcbs_of es) ≡ true)
    → has s.current_proc (ready ++ pcbs_of es) ≡ false
    → length (members_of fam) < n
    → length (members_of fam) ≤ fuel
    → length (members_of fam) ≤ max_proc
    → Returns
        (λ _ t.
          Gone s ready es free (members_of fam) (c ∷ members_of fam) t
          × (t.asl.procs.p_child c ≡ null))
        (children_loop n (terminate_process fuel) c s)
children_loop-family no_kin zero fuel c s ready live hc f out d queued running hn hf hm =
    absurd (omega arith)
children_loop-family no_kin (suc n) fuel c s ready {es} {fs} {free} live hc f out d queued running
      hn hf hm =
    rw (children_loop-childless n (terminate_process fuel) c s hc f) (
      returns (
        (
          subst (λ l. Ended s ready es [] l s) (sym (append-nil free)) (Ended-none live),
          λ b h. refl,
        ),
        f,
      ))
children_loop-family (kin p ch sb) zero fuel c s ready live hc f out d queued running hn hf hm =
    absurd (omega arith)
children_loop-family (kin p ch sb) (suc n) zero c s ready live hc f out d queued running hn hf hm =
    absurd (
      omega (
        arith,
        length-append (members_of ch ++ p ∷ []) (members_of sb),
        length-append (members_of ch) (p ∷ []),
      ))
children_loop-family (kin p ch sb) (suc n) (suc fuel) c s ready {es} {fs} {free} live hc f out d
      queued running hn hf hm =
    let (first, hp, below, beside) = f in
    let front = members_of ch ++ p ∷ [] in
    let size = length-append front (members_of sb) in
    let size' = length-append (members_of ch) (p ∷ []) in
    let own = Distinct-children p ch sb d in
    let s1 = without_first s c p in
    let live1 = IsLive-children (update s.asl.procs.p_child c (s.asl.procs.p_next_sib p)) live in
    let inner =
      children_loop-family ch (max_proc + 1) fuel p s1 ready live1 hp
        (family_below s c p ch sb out below) own.0 own.1 (λ b h. queued b (has_child p ch sb b h))
        running (omega (arith, size, size')) (omega (arith, size, size'))
        (omega (arith, size, size')) in
    let step = terminate_process-other fuel p s1 inner (λ t (gone, none).
      pcb_ends p (members_of ch) live1 hp own.0 (queued p (has_self p ch sb)) running t gone) in
    rw (children_loop-first n (terminate_process (suc fuel)) c p s hc hp first) (
      Returns-bind step λ _ t gone.
        let here = ap (λ (r : Kernel). r.current_proc) gone.0.rest in
        Returns-mono
          (children_loop-family sb n (suc fuel) c t (without front ready) gone.0.live hc
            (family_beside s c p ch sb out free gone d beside)
            (ground (arith, out, has-append c front (members_of sb)))
            (Distinct-right front (members_of sb) d)
            (λ b h.
              Ended-queued gone.0 b (sibling-apart p ch sb d b h)
                (queued b (has_sibling p ch sb b h)))
            (rw here (Ended-absent gone.0 s.current_proc running)) (omega (arith, size, size'))
            (omega (arith, size, size')) (omega (arith, size, size')))
          λ _ u (rest, none). (Gone-siblings s c p ch sb out free gone rest, none))
