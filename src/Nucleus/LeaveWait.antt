-- ===== src/Nucleus/LeaveWait.antt =====
-- A pcb leaves the semaphore that it waits on.
use mathlib.Core.Path.{subst, sym}
use os_fall_2021_project.Prelude.{
  ℕ, ◌≡◌, refl, true, false, List, [], ◌∷◌, ◌++◌, ap, ◌∙◌, arith, ◌==◌, has, has-append,
  has-reverse, has-drop_all, reverse, drop_all, drop_all_absent, drop_all-append, Distinct,
  Distinct-apart, Distinct-left, Distinct-right, Distinct-drop_all, AllTrue-has, AllTrue-of_has,
  length, length-drop_member, Bool-cases, inl, inr, update, update_self, update_ne,
}
use os_fall_2021_project.Machine.Word.{null, add32, sub32}
use os_fall_2021_project.Machine.Outcome.{Returns, returns, Returns-eq, ok}
use os_fall_2021_project.Pcb.{Procs, is_pcb}
use os_fall_2021_project.Pcb.Ring.{IsQueue}
use os_fall_2021_project.Pcb.FreeList.{IsRing-frame}
use os_fall_2021_project.Asl.{Asl}
use os_fall_2021_project.Asl.Entries.{
  IsAsl, Entry, pcbs_of, keys_of, keys_of-append, pcbs_of-append,
}
use os_fall_2021_project.Asl.Around.{entry, Spares}
use os_fall_2021_project.Asl.Insert.{IsAsl-Around, Sorted-small, Sorted-lt}
use os_fall_2021_project.Asl.Wait.{waiting_on, free_with, out_blocked-waiting_on}
use os_fall_2021_project.Asl.View.{
  queue_of, waiters, queue_of-waiting_on, queue_of-entry, queue_of-other, pcbs_of-taken,
  waiters-waiting_on,
}
use os_fall_2021_project.Nucleus.{Kernel, device_sem, clock_sem}
use os_fall_2021_project.Nucleus.Exceptions.{unqueue}
use os_fall_2021_project.Nucleus.Unqueue.{is_device, unqueue-device, unqueue-semaphore}
use os_fall_2021_project.Nucleus.Live.{IsLive, Ended}

-- The pcb `c` has left, and all pcbs have the children they had.
abbrev pub LeftQueue :
    (s : Kernel) (ready : List ℕ) (es : List Entry) (c : ℕ) (free : List ℕ) → Kernel → Type 0
LeftQueue s ready es c free t =
    Ended s ready es (c ∷ []) free t × (t.asl.procs.p_child ≡ s.asl.procs.p_child)

pub Distinct-dropped :
    (c : ℕ) (ps qs : List ℕ) → Distinct (ps ++ qs) → Distinct (drop_all c ps ++ drop_all c qs)
Distinct-dropped c ps qs d = rw (← drop_all-append c ps qs) (Distinct-drop_all c (ps ++ qs) d)

module _ {s : Kernel} {ready : List ℕ} {fs free : List ℕ} (c : ℕ) where
  -- Off the queue `ps` of a semaphore, with the memory `m` and the soft-block count `b` afterwards.
  left_semaphore :
      (xs : List Entry) (d k : ℕ) (ps : List ℕ) (ys : List Entry)
      → IsLive s ready (xs ++ entry d k ps ∷ ys) fs free
      → has c ps ≡ true
      → (a : Asl) → IsAsl a (waiting_on xs d k (drop_all c ps) ys) (free_with d (drop_all c ps) fs)
      → Spares ps s.asl.procs a.procs
      → (m : ℕ → ℕ) (b : ℕ)
      → ((j : ℕ)
          → is_device s j ≡ false
          → add32 (m j) (length (queue_of j (waiting_on xs d k (drop_all c ps) ys)))
            ≡ add32 (s.mem j) (length (queue_of j (xs ++ entry d k ps ∷ ys))))
      → (add32 b (waiters (device_sem s 0) (clock_sem s) (xs ++ entry d k ps ∷ ys))
          ≡ add32 s.soft_block_count
              (waiters (device_sem s 0) (clock_sem s) (waiting_on xs d k (drop_all c ps) ys)))
      → Ended s ready (xs ++ entry d k ps ∷ ys) (c ∷ []) free (record s {
        asl = a;
        mem = m;
        soft_block_count = b;
        process_count = sub32 s.process_count 1;
      })
  unfolding add32 sub32
  left_semaphore xs d k ps ys live m a asl spares mem soft values fewer =
      let es = xs ++ entry d k ps ∷ ys in
      let inv = live.queues in
      let others = pcbs_of xs ++ (ps ++ pcbs_of ys) in
      let all : pcbs_of es ≡ others = pcbs_of-append xs (entry d k ps ∷ ys) in
      let apart : Distinct (ready ++ others) = rw (← all) inv.apart in
      let within = Distinct-right ready others apart in
      let taken = pcbs_of-taken xs d k c ps ys m within in
      let inside : (b : ℕ) → has b ps ≡ true → has b others ≡ true = λ b h.
        ground
          (arith, has-append b (pcbs_of xs) (ps ++ pcbs_of ys), has-append b ps (pcbs_of ys)) in
      let far : (b : ℕ) → has b ready ≡ true → has b ps ≡ false =
        λ b h. ground (arith, Distinct-apart b ready others apart h, inside b) in
      let clear : (b : ℕ) → has b free ≡ true → has b ps ≡ false =
        λ b h. ground (arith, live.apart b h, has-append b ready (pcbs_of es), all, inside b) in
      let away : has c ready ≡ false = ground (arith, far c) in
      let stays = drop_all_absent c ready away in
      record {
        es' = waiting_on xs d k (drop_all c ps) ys;
        fs' = free_with d (drop_all c ps) fs;
        live = record {
          queues = record {
            ready_queue = rw stays (
                IsRing-frame (reverse ready) inv.ready_queue
                  (λ b h. spares.next_out b (far b (rw (← has-reverse b ready) h)))
                  (λ b h. spares.prev_out b (far b (rw (← has-reverse b ready) h))));
            asl = asl;
            apart = rw taken (Distinct-dropped c ready (pcbs_of es) inv.apart);
          };
          free_list =
              subst (λ h. IsQueue a.procs h free)
                (sym (ap (λ (t : Procs). t.pcb_list_h) spares.rest))
                (IsRing-frame (reverse free) live.free_list
                  (λ b h. spares.next_out b (clear b (rw (← has-reverse b free) h)))
                  (λ b h. spares.prev_out b (clear b (rw (← has-reverse b free) h))));
          apart = λ b h. rw taken (
              ground (
                arith,
                live.apart b h,
                has-append b ready (pcbs_of es),
                has-append b (drop_all c ready) (drop_all c (pcbs_of es)),
                has-drop_all b c ready,
                has-drop_all b c (pcbs_of es),
              ));
          unblocked = rw stays (
              AllTrue-of_has (λ b. a.procs.p_sem_add b == null) ready
                (λ b h.
                  rw (spares.sem_out b (far b h))
                    (AllTrue-has (λ x. s.asl.procs.p_sem_add x == null) b ready live.unblocked h)));
        };
        members = taken;
        queues = λ j.
            queue_of-waiting_on 0 xs d k c ps (drop_all c ps) ys j refl m within
              (rw (keys_of-append xs (entry d k ps ∷ ys)) at inv.asl.sorted);
        values = values;
        soft = fewer;
        count = omega arith;
        sems = λ b h. spares.sem_out b (ground (arith, all, inside b));
        procs = ground (arith, spares.rest);
        rest = refl;
      }

  -- Off the queue of a semaphore.
  pub unqueue-entry :
      (xs : List Entry) (d k : ℕ) (ps : List ℕ) (ys : List Entry)
      → IsLive s ready (xs ++ entry d k ps ∷ ys) fs free
      → has c ps ≡ true
      → is_pcb c ≡ true
      → Returns (λ _ s'. LeftQueue s ready (xs ++ entry d k ps ∷ ys) c free s') (unqueue c s)
  unfolding add32 sub32
  unqueue-entry xs d k ps ys live m hc =
      let es = xs ++ entry d k ps ∷ ys in
      let es' = waiting_on xs d k (drop_all c ps) ys in
      let around = IsAsl-Around xs d k ps ys live.queues.asl in
      let (r, a, run, (first, asl, cleared, spares)) =
        Returns-eq (out_blocked-waiting_on xs d k c ps ys live.queues.asl m) in
      let kids = ap (λ (t : Procs). t.p_child) spares.rest in
      let done = run ∙ ap (λ v. ok v a) first in
      let hk : s.asl.procs.p_sem_add c ≡ k =
        ground (arith, AllTrue-has (λ p. s.asl.procs.p_sem_add p == k) c ps around.waits m) in
      let nn : (k == null) ≡ false =
        ground (arith, Sorted-small 0 (keys_of xs) k (keys_of ys) around.sorted) in
      let above : (k == 0) ≡ false =
        ground (arith, Sorted-lt 0 (keys_of xs) k (keys_of ys) around.sorted) in
      let fewer =
        length-drop_member c ps
          (Distinct-left ps (pcbs_of ys)
            (Distinct-right (pcbs_of xs) (ps ++ pcbs_of ys) around.apart))
          m in
      let left : (j : ℕ) → queue_of j es' ≡ drop_all c (queue_of j es) = λ j.
        queue_of-waiting_on 0 xs d k c ps (drop_all c ps) ys j refl m around.apart around.sorted in
      let other : (j : ℕ) → (k == j) ≡ false → queue_of j es' ≡ queue_of j es = λ j ne.
        left j
        ∙ drop_all_absent c (queue_of j es) (queue_of-other xs d k c ps ys j m around.apart ne) in
      let own : queue_of k es' ≡ drop_all c ps =
        left k ∙ ap (drop_all c) (queue_of-entry 0 xs d k ps ys around.sorted) in
      let here = queue_of-entry 0 xs d k ps ys around.sorted in
      let one =
        waiters-waiting_on (device_sem s 0) (clock_sem s) xs d k ps (drop_all c ps) ys fewer in
      elim (Bool-cases (is_device s k)) [
        | inl dev ↦
            let soft = rw dev at one in
            rw (unqueue-device c s hc k a hk nn done dev) (
              returns (
                left_semaphore xs d k ps ys live m a asl spares s.mem (sub32 s.soft_block_count 1)
                    (λ j h. rw (other j (ground (arith, dev, h))) refl) (omega (arith, soft)),
                kids,
              ))
        | inr dev ↦
            let soft = rw dev at one in
            rw (unqueue-semaphore c s hc k a hk nn done dev above) (
              returns (
                left_semaphore xs d k ps ys live m a asl spares (update s.mem k (add32 (s.mem k) 1))
                    s.soft_block_count
                    (λ j h. elim (Bool-cases (k == j)) [
                      | inl same ↦
                          let is : j ≡ k = ground arith in
                          rw (is, own, here, update_self s.mem k (add32 (s.mem k) 1))
                            (omega (arith, fewer))
                      | inr ne ↦
                          rw (other j ne, update_ne s.mem k (add32 (s.mem k) 1) j (ground arith))
                            refl
                    ])
                    (omega (arith, soft)),
                kids,
              ))
      ]
