-- ===== src/Nucleus/Freed.antt =====
-- `freePcb` for a pcb that has left its queue.
use os_fall_2021_project.Prelude.{
  ℕ, ◌≡◌, refl, true, false, List, [], ◌∷◌, ◌++◌, ap, ◌∙◌, arith, has, has-append, drop_all,
  has-drop_all_back, reverse, Bool-cases, inl, inr,
}
use os_fall_2021_project.Machine.Outcome.{Returns, returns, Returns-bind, Returns-eq}
use os_fall_2021_project.Pcb.{Procs, is_pcb}
use os_fall_2021_project.Pcb.Free.{free_pcb}
use os_fall_2021_project.Pcb.FreeList.{FreeList, IsRing-frame, SameRest}
use os_fall_2021_project.Pcb.Queue.{insert_proc_q-append}
use os_fall_2021_project.Asl.Entries.{Entry, pcbs_of}
use os_fall_2021_project.Nucleus.{Kernel, on_procs}
use os_fall_2021_project.Nucleus.Invariant.{IsNucleus-members}
use os_fall_2021_project.Nucleus.Live.{Ended}

-- The free list, the links of the other pcbs, and the rest.
free_pcb-links :
    {s : Procs} (q : List ℕ) (p : ℕ)
    → FreeList s q
    → is_pcb p ≡ true
    → has p q ≡ false
    → Returns
        (λ _ s'.
          FreeList s' (q ++ p ∷ [])
          × ((b : ℕ)
              → has b (p ∷ q) ≡ false
              → (s'.p_next b ≡ s.p_next b) × (s'.p_prev b ≡ s.p_prev b))
          × SameRest s s')
        (free_pcb p s)
unfolding free_pcb
free_pcb-links {s} q p free hp out =
    Returns-bind (insert_proc_q-append q p free hp out) λ tp s' (e, queue, only). returns (
      IsRing-frame (reverse (q ++ p ∷ [])) queue (λ b m. refl) (λ b m. refl),
      λ b h. (only.next_out b h, only.prev_out b h),
      ground (arith, only.rest),
    )

has-dropped : (p : ℕ) (xs : List ℕ) → has p (drop_all p xs) ≡ false
has-dropped p xs = elim (Bool-cases (has p (drop_all p xs))) [
  | inl e ↦ ground (arith, has-drop_all_back p p xs e)
  | inr e ↦ e
]

-- The pcb joins the free list, behind the others.
pub free_pcb-Ended :
    {s t : Kernel} {ready : List ℕ} {es : List Entry} {free : List ℕ} (c : ℕ)
    → Ended s ready es (c ∷ []) free t
    → is_pcb c ≡ true
    → has c free ≡ false
    → Returns
        (λ _ u.
          Ended s ready es (c ∷ []) (free ++ c ∷ []) u
          × (u.asl.procs.p_child ≡ t.asl.procs.p_child))
        (on_procs (free_pcb c) t)
free_pcb-Ended {s} {t} {ready} {es} {free} c ended hc out =
    let (r, pr, run, (list, links, same)) =
      Returns-eq (free_pcb-links free c ended.live.free_list hc out) in
    let queued = drop_all c ready ++ pcbs_of ended.es' in
    let gone : has c queued ≡ false =
      rw (has-append c (drop_all c ready) (pcbs_of ended.es'), ended.members)
        (ground (arith, has-dropped c ready, has-dropped c (pcbs_of es))) in
    let sems = ap (λ (x : Procs). x.p_sem_add) same in
    let u : Kernel = record t { asl = record t.asl { procs = pr } } in
    let apart : (b : ℕ) → has b (free ++ c ∷ []) ≡ true → has b queued ≡ false =
      λ b h. ground (arith, ended.live.apart b, has-append b free (c ∷ [])) in
    let far : (b : ℕ) → has b queued ≡ true → has b (c ∷ free) ≡ false =
      λ b h. ground (arith, apart b, has-append b free (c ∷ [])) in
    rw run (
      returns (
        record {
          es' = ended.es';
          fs' = ended.fs';
          live = record {
            queues =
                IsNucleus-members t u ended.live.queues refl refl
                  (λ b h. ((links b (far b h)).0, (links b (far b h)).1, ap (λ f. f b) sems));
            free_list = list;
            apart = apart;
            unblocked = rw sems ended.live.unblocked;
          };
          members = ended.members;
          queues = ended.queues;
          values = ended.values;
          soft = ended.soft;
          count = ended.count;
          sems = λ b h. ap (λ f. f b) sems ∙ ended.sems b h;
          procs = ground (arith, same, ended.procs);
          rest = ground (arith, ended.rest);
        },
        ap (λ (x : Procs). x.p_child) same,
      ))
