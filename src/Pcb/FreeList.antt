-- ===== src/Pcb/FreeList.antt =====
-- What `initPcbs`, `freePcb` and `allocPcb` do to the free list.
use native.Mathlib.Numerals.{add-one}
use os_fall_2021_project.Prelude.{
  ◌∙◌, ℕ, zero, suc, ◌+◌, ◌<◌, ◌≡◌, refl, true, false, List, [], ◌∷◌, ◌++◌, arith, update, has,
  has-append, has-reverse, reverse, ne_of_has, update_ne, ◌≢◌,
}
use os_fall_2021_project.Machine.Word.{null, max_proc}
use os_fall_2021_project.Machine.Outcome.{
  ok, Returns, returns, Returns-bind, Returns-mono, for_range_inv,
}
use os_fall_2021_project.Pcb.{Procs, is_pcb}
use os_fall_2021_project.Pcb.Seg.{Seg-frame}
use os_fall_2021_project.Pcb.Ring.{IsRing, IsQueue, IsQueue-ne_null, IsQueue-out, IsQueue-valid}
use os_fall_2021_project.Pcb.Queue.{insert_proc_q-append, remove_proc_q-first}
use os_fall_2021_project.Pcb.Free.{free_pcb, alloc_pcb, init_pcbs, clear_pcb}

-- The free list holds the pcbs `q`, the next one to be given out first.
abbrev pub FreeList : Procs → List ℕ → Type 0
FreeList s q = IsQueue s s.pcb_list_h q

-- A ring depends on the links of its members only.
pub IsRing-frame :
    (xs : List ℕ) {tp : ℕ} {s s' : Procs}
    → IsRing s tp xs
    → ((b : ℕ) → has b xs ≡ true → s'.p_next b ≡ s.p_next b)
    → ((b : ℕ) → has b xs ≡ true → s'.p_prev b ≡ s.p_prev b)
    → IsRing s' tp xs
IsRing-frame [] r hn hp = record { tail = r.tail; links = tt; distinct = tt; valid = tt }
IsRing-frame (x ∷ xs) {s} {s'} r hn hp = record {
  tail = r.tail;
  links =
      Seg-frame s.p_next s.p_prev s'.p_next s'.p_prev x xs x r.links hn (λ b m. hp b (ground arith))
        (hp x (ground arith));
  distinct = r.distinct;
  valid = r.valid;
}

-- `s'` is `s` but for the links of pcbs and the free list.
abbrev pub SameRest : Procs → Procs → Type 0
SameRest s s' = s' ≡ record s { p_next = s'.p_next; p_prev = s'.p_prev; pcb_list_h = s'.pcb_list_h }

-- A freed pcb goes to the end of the free list.
pub free_pcb-FreeList :
    {s : Procs} (q : List ℕ) (p : ℕ)
    → FreeList s q
    → is_pcb p ≡ true
    → has p q ≡ false
    → Returns (λ _ s'. FreeList s' (q ++ p ∷ []) × SameRest s s') (free_pcb p s)
unfolding free_pcb
free_pcb-FreeList {s} q p free hp out =
    Returns-bind (insert_proc_q-append q p free hp out) λ tp s' (e, queue, only). returns (
      IsRing-frame (reverse (q ++ p ∷ [])) queue (λ b m. refl) (λ b m. refl),
      ground (arith, only.rest),
    )

-- 1, …, n.
unfoldable pub up_to : ℕ → List ℕ
up_to zero = []
up_to (suc n) = up_to n ++ suc n ∷ []

has-up_to : (a n : ℕ) → n < a → has a (up_to n) ≡ false
unfolding up_to
has-up_to a zero h = refl
has-up_to a (suc n) h = rw (has-append a (up_to n) (suc n ∷ [])) (ground (arith, has-up_to a n))

up_to-add : (n : ℕ) → up_to (n + 1) ≡ up_to n ++ (n + 1) ∷ []
unfolding up_to
up_to-add n = rw add-one

SameRest-trans : (s t u : Procs) → SameRest s t → SameRest t u → SameRest s u
SameRest-trans s t u a b = ground arith

-- `initPcbs` puts all pcbs on the free list, in the order of the table.
pub init_pcbs-FreeList :
    (s : Procs) → Returns (λ _ s'. FreeList s' (up_to max_proc) × SameRest s s') (init_pcbs s)
unfolding init_pcbs up_to
init_pcbs-FreeList s =
    for_range_inv (λ i t. FreeList t (up_to i) × SameRest s t) (λ i. free_pcb (i + 1)) max_proc 0
      max_proc _ refl
      (λ i t lt (free, same).
        Returns-mono
          (free_pcb-FreeList (up_to i) (i + 1) free (ground arith)
            (has-up_to (i + 1) i (omega arith)))
          λ _ t' (free', same'). (rw (up_to-add i) free', SameRest-trans s t t' same same'))
      (record { tail = refl; links = tt; distinct = tt; valid = tt }, refl)

-- On an empty free list `allocPcb` gives `null` and changes nothing.
pub alloc_pcb-nil : (s : Procs) → FreeList s [] → alloc_pcb s ≡ ok null s
unfolding alloc_pcb
alloc_pcb-nil s free = ground (arith, free.tail)

-- What `allocPcb` makes of the pcb `p`.
abbrev pub Cleared : Procs → ℕ → Procs → Type 0
Cleared s p s' = s' ≡ record s {
  p_next = s'.p_next;
  p_prev = s'.p_prev;
  pcb_list_h = s'.pcb_list_h;
  p_prnt = update s.p_prnt p null;
  p_child = update s.p_child p null;
  p_next_sib = update s.p_next_sib p null;
  p_prev_sib = update s.p_prev_sib p null;
  p_time = update s.p_time p 0;
  p_sem_add = update s.p_sem_add p null;
  p_support_struct = update s.p_support_struct p null;
}

clear_pcb-ok :
    (s : Procs) (p : ℕ)
    → is_pcb p ≡ true
    → Returns
        (λ _ s'.
          Cleared s p s'
          × (s'.p_next ≡ update s.p_next p null)
          × (s'.p_prev ≡ update s.p_prev p null)
          × (s'.pcb_list_h ≡ s.pcb_list_h))
        (clear_pcb p s)
unfolding clear_pcb
clear_pcb-ok s p hp = simp hp (returns (refl, refl, refl, refl))

-- The pcb that is given out, initialized, and the free list without it; no other pcb's links change.
abbrev pub Allocated : Procs → ℕ → List ℕ → ℕ → Procs → Type 0
Allocated s p q r s' =
    (r ≡ p)
    × FreeList s' q
    × Cleared s p s'
    × (s'.p_next p ≡ null)
    × (s'.p_prev p ≡ null)
    × ((b : ℕ) → has b (p ∷ q) ≡ false → (s'.p_next b ≡ s.p_next b) × (s'.p_prev b ≡ s.p_prev b))

-- Where another pcb is left, `allocPcb` gives the first one of the free list, initialized.
pub alloc_pcb-cons :
    {s : Procs} (p y : ℕ) (q : List ℕ)
    → FreeList s (p ∷ y ∷ q)
    → Returns (Allocated s p (y ∷ q)) (alloc_pcb s)
unfolding alloc_pcb
alloc_pcb-cons {s} p y q free =
    let hp = IsQueue-valid p (y ∷ q) free in
    let out = IsQueue-out p (y ∷ q) free in
    let other : (b : ℕ) → has b (reverse (y ∷ q)) ≡ true → b ≢ p =
      λ b m. ground (arith, ne_of_has p b (y ∷ q), has-reverse b (y ∷ q)) in
    rw (IsQueue-ne_null p (y ∷ q) free) (
      Returns-bind (remove_proc_q-first p (y ∷ q) free) λ (t, tp) s' (e, ring, only).
        rw (e, IsQueue-ne_null y q ring)
          (Returns-bind (clear_pcb-ok (record s' { pcb_list_h = tp }) p hp)
            λ _ t' (cleared, hn, hv, hl). returns (
              refl,
              rw hl (
                  IsRing-frame (reverse (y ∷ q)) ring
                    (λ b m. rw hn (update_ne s'.p_next p null b (other b m)))
                    (λ b m. rw hv (update_ne s'.p_prev p null b (other b m)))),
              ground (arith, only.rest),
              rw hn (ground arith),
              rw hv (ground arith),
              λ b o. (
                rw hn (update_ne s'.p_next p null b (ground arith)) ∙ only.next_out b o,
                rw hv (update_ne s'.p_prev p null b (ground arith)) ∙ only.prev_out b o,
              ),
            )))

-- The last pcb of the free list is given out as it was left: no field of it is initialized.
pub alloc_pcb-last :
    {s : Procs} (p : ℕ)
    → FreeList s (p ∷ [])
    → Returns (λ r s'. (r ≡ p) × FreeList s' [] × SameRest s s') (alloc_pcb s)
unfolding alloc_pcb
alloc_pcb-last {s} p free = rw (IsQueue-ne_null p [] free) (
    Returns-bind (remove_proc_q-first p [] free) λ (t, tp) s' (e, ring, only).
      rw (e, ring.tail)
        (returns (
          refl,
          record { tail = refl; links = tt; distinct = tt; valid = tt },
          ground (arith, only.rest),
        )))
