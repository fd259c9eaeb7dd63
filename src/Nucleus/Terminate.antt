-- ===== src/Nucleus/Terminate.antt =====
-- SYS2 of the running process: its descendants end, then it ends itself, and the scheduler runs.
use os_fall_2021_project.Prelude.{
  ℕ, suc, ◌+◌, ◌%◌, ◌^◌, ◌≡◌, refl, true, false, List, [], ◌∷◌, ◌++◌, ap, ◌∙◌, sym, arith, ◌==◌,
  has, has-append, without, Distinct, length, Bool-cases, inl, inr, length-le_of_Distinct,
}
use os_fall_2021_project.Machine.Word.{null, add32, sub32, max_proc}
use os_fall_2021_project.Machine.Outcome.{
  Returns-eq, and_then, ok, load_state, halted, Stops, stops, Stops-bind,
}
use os_fall_2021_project.Pcb
use os_fall_2021_project.Pcb.{Procs, is_pcb, mk_empty_proc_q, empty_proc_q}
use os_fall_2021_project.Pcb.Free.{free_pcb}
use os_fall_2021_project.Pcb.FreeList.{FreeList, IsRing-frame}
use os_fall_2021_project.Pcb.Ring.{IsQueue-ne_null, IsQueue-valid}
use os_fall_2021_project.Pcb.Tree.{empty_child}
use os_fall_2021_project.Asl.Entries.{Entry, pcbs_of}
use os_fall_2021_project.Asl.View.{queue_of, waiters}
use os_fall_2021_project.Nucleus.{Kernel, on_procs, device_sem, clock_sem, stck, set_timer}
use os_fall_2021_project.Nucleus.Scheduler.{switch_to, switch_state, scheduler}
use os_fall_2021_project.Nucleus.Exceptions.{terminate_process, children_loop, unqueue, tree_fuel}
use os_fall_2021_project.Nucleus.Invariant.{IsNucleus, IsNucleus-frame}
use os_fall_2021_project.Nucleus.Queues.{IsNucleus-dispatch}
use os_fall_2021_project.Nucleus.First.{FreeList-apart}
use os_fall_2021_project.Nucleus.Unqueue.{is_device}
use os_fall_2021_project.Nucleus.Live.{IsLive, Ended, Ended-absent}
use os_fall_2021_project.Nucleus.Exit.{unqueue-absent}
use os_fall_2021_project.Nucleus.Family.{Family, members_of, IsFamily, IsFamily-valid}
use os_fall_2021_project.Nucleus.Tree.{children_loop-family}

-- The running process, in no queue and waiting for nothing, and the tree below it, all in queues.
pub record IsRunning (s : Kernel) (ready : List ℕ) (es : List Entry) (fs free : List ℕ)
    (fam : Family) : Type 0 where
  pub live : IsLive s ready es fs free
  pub valid : is_pcb s.current_proc ≡ true
  pub running : has s.current_proc (ready ++ pcbs_of es) ≡ false
  pub awake : s.asl.procs.p_sem_add s.current_proc ≡ null
  pub family : IsFamily s.asl.procs (s.asl.procs.p_child s.current_proc) fam
  pub distinct : Distinct (members_of fam)
  pub queued : (b : ℕ) → has b (members_of fam) ≡ true → has b (ready ++ pcbs_of es) ≡ true

-- The state in which the scheduler runs.
abbrev without_current : Kernel → Kernel
without_current t = record t {
  current_proc = mk_empty_proc_q;
  process_count = sub32 t.process_count 1;
}

-- What follows the loop over the children.
terminate_process_self :
    (fuel : ℕ) (s t : Kernel)
    → children_loop (max_proc + 1) (terminate_process fuel) s.current_proc s ≡ ok tt t
    → unqueue s.current_proc t ≡ ok tt t
    → t.current_proc ≡ s.current_proc
    → is_pcb s.current_proc ≡ true
    → t.asl.procs.p_child s.current_proc ≡ null
    → terminate_process (suc fuel) s.current_proc s
      ≡ and_then (scheduler (without_current t)) (λ _. on_procs (free_pcb s.current_proc))
unfolding terminate_process empty_child Pcb.load
terminate_process_self fuel s t loop left here hc none =
    let same : (s.current_proc == t.current_proc) ≡ true = ground arith in
    let childless : (t.asl.procs.p_child s.current_proc == null) ≡ true = ground arith in
    simp (loop, left, same, hc, childless) refl

-- The descendants are gone when the scheduler runs.
pub terminate_process-scheduler :
    (s : Kernel) (fam : Family) (ready : List ℕ) {es : List Entry} {fs free : List ℕ}
    → IsRunning s ready es fs free fam
    → (t : Kernel) × Ended s ready es (members_of fam) (free ++ members_of fam) t
      × ((b : ℕ)
          → has b (s.current_proc ∷ members_of fam) ≡ false
          → t.asl.procs.p_child b ≡ s.asl.procs.p_child b)
      × (terminate_process tree_fuel s.current_proc s
          ≡ and_then (scheduler (without_current t)) (λ _. on_procs (free_pcb s.current_proc)))
terminate_process-scheduler s fam ready {es} {fs} {free} run =
    let c = s.current_proc in
    let size =
      length-le_of_Distinct max_proc (members_of fam) run.distinct
        (IsFamily-valid s.asl.procs (s.asl.procs.p_child c) fam run.family) in
    let out : has c (members_of fam) ≡ false = elim (Bool-cases (has c (members_of fam))) [
      | inl e ↦ ground (arith, run.queued c e, run.running)
      | inr e ↦ e
    ] in
    let (r, t, loop, ((ended, kids), none)) = Returns-eq (
      children_loop-family fam (max_proc + 1) 20 c s ready run.live run.valid run.family out
        run.distinct run.queued run.running (omega (arith, size)) size size) in
    let here = ap (λ (x : Kernel). x.current_proc) ended.rest in
    let asleep = ended.sems c (ground (arith, run.running, has-append c ready (pcbs_of es))) in
    (
      t,
      ended,
      kids,
      terminate_process_self 20 s t loop
          (unqueue-absent c t (without (members_of fam) ready) ended.live.queues run.valid
            (Ended-absent ended c run.running) (asleep ∙ run.awake))
          here run.valid none,
    )

-- The pcbs after the first ready one is taken off the queue.
ended_procs :
    (a b c : Procs)
    → c ≡ record b { p_next = c.p_next; p_prev = c.p_prev }
    → b ≡ record a {
      p_next = b.p_next;
      p_prev = b.p_prev;
      p_sem_add = b.p_sem_add;
      p_child = b.p_child;
      pcb_list_h = b.pcb_list_h;
    }
    → c ≡ record a {
      p_next = c.p_next;
      p_prev = c.p_prev;
      p_sem_add = c.p_sem_add;
      p_child = c.p_child;
      pcb_list_h = c.pcb_list_h;
    }
ended_procs a b c taken ended =
    taken
    ∙ ap (λ (x : Procs). record x { p_next = c.p_next; p_prev = c.p_prev }) ended
    ∙ ap
        (λ (x : Procs). record a {
          p_next = c.p_next;
          p_prev = c.p_prev;
          p_sem_add = x.p_sem_add;
          p_child = x.p_child;
          pcb_list_h = x.pcb_list_h;
        })
        (sym taken)

-- The state after the scheduler has run.
ended_others :
    (s t u : Kernel)
    → u ≡ record t {
      asl = u.asl;
      ready_q = u.ready_q;
      current_proc = u.current_proc;
      process_count = u.process_count;
      soft_block_count = u.soft_block_count;
      start_tod = u.start_tod;
      mem = u.mem;
      hw = u.hw;
    }
    → t ≡ record s {
      asl = t.asl;
      ready_q = t.ready_q;
      process_count = t.process_count;
      soft_block_count = t.soft_block_count;
      mem = t.mem;
    }
    → u ≡ record s {
      asl = u.asl;
      ready_q = u.ready_q;
      current_proc = u.current_proc;
      process_count = u.process_count;
      soft_block_count = u.soft_block_count;
      start_tod = u.start_tod;
      mem = u.mem;
      hw = u.hw;
    }
ended_others s t u ran ended =
    ran
    ∙ ap
        (λ (x : Kernel). record x {
          asl = u.asl;
          ready_q = u.ready_q;
          current_proc = u.current_proc;
          process_count = u.process_count;
          soft_block_count = u.soft_block_count;
          start_tod = u.start_tod;
          mem = u.mem;
          hw = u.hw;
        })
        ended

-- From `s` to `s'` the running process and the pcbs `ps` below it have ended; `rest` are the ready pcbs.
pub record Exited (s : Kernel) (es : List Entry) (free ps rest : List ℕ) (s' : Kernel)
    : Type 0 where
  pub es' : List Entry
  pub fs' : List ℕ
  pub queues : IsNucleus s' rest es' fs'
  pub free_list : FreeList s'.asl.procs (free ++ ps)
  pub waiting : (k : ℕ) → queue_of k es' ≡ without ps (queue_of k es)
  pub values :
      (k : ℕ)
      → is_device s k ≡ false
      → add32 (s'.mem k) (length (queue_of k es')) ≡ add32 (s.mem k) (length (queue_of k es))
  pub soft :
      add32 s'.soft_block_count (waiters (device_sem s 0) (clock_sem s) es)
      ≡ add32 s.soft_block_count (waiters (device_sem s 0) (clock_sem s) es')
  pub count : add32 s'.process_count (suc (length ps)) ≡ s.process_count % 2 ^ 32
  pub children :
      (b : ℕ) → has b (s.current_proc ∷ ps) ≡ false → s'.asl.procs.p_child b ≡ s.asl.procs.p_child b
  pub procs : s'.asl.procs ≡ record s.asl.procs {
    p_next = s'.asl.procs.p_next;
    p_prev = s'.asl.procs.p_prev;
    p_sem_add = s'.asl.procs.p_sem_add;
    p_child = s'.asl.procs.p_child;
    pcb_list_h = s'.asl.procs.pcb_list_h;
  }
  pub others : s' ≡ record s {
    asl = s'.asl;
    ready_q = s'.ready_q;
    current_proc = s'.current_proc;
    process_count = s'.process_count;
    soft_block_count = s'.soft_block_count;
    start_tod = s'.start_tod;
    mem = s'.mem;
    hw = s'.hw;
  }

module _ (s : Kernel) (fam : Family) {es : List Entry} {fs free : List ℕ} where
  -- Where the running process is in no queue, every descendant of it is in one, and a pcb is ready that
  -- is none of them, SYS2 of it ends all of them: it takes them off their queues, where the others keep
  -- their order, and puts them on the free list, children before parents; it takes as many and one off the
  -- process count, signals each semaphore that is no device's once for each of them that waited on it, takes
  -- those that waited on a device off the soft-block count, and runs the first ready pcb that is left. Its own
  -- pcb is not put on the free list, and of no pcb but these the first child changes, and of none the next
  -- sibling. The queues, the free list and the tree are well-formed, a ready pcb waits for nothing, and the
  -- clock has a time scale.
  pub terminate_process-tree :
      (ready : List ℕ) (r : ℕ) (rest : List ℕ)
      → IsRunning s ready es fs free fam
      → without (members_of fam) ready ≡ r ∷ rest
      → (s.hw.timescale == 0) ≡ false
      → Stops
          (λ e s'.
            (e ≡ load_state (s.asl.procs.p_s r))
            × (s'.current_proc ≡ r)
            × Exited s es free (members_of fam) rest s')
          (terminate_process tree_fuel s.current_proc s)
  unfolding scheduler stck set_timer empty_proc_q mk_empty_proc_q switch_to switch_state Pcb.load
      add32 sub32
  terminate_process-tree ready r rest run left scale =
      let (t, ended, kids, ends) = terminate_process-scheduler s fam ready run in
      let u = without_current t in
      let live : IsLive t (r ∷ rest) ended.es' ended.fs' (free ++ members_of fam) =
        rw left at ended.live in
      let inv : IsNucleus u (r ∷ rest) ended.es' ended.fs' =
        IsNucleus-frame t u live.queues refl refl (λ b. (refl, refl, refl)) in
      let (tp, pr, removed, inv', only) = IsNucleus-dispatch r inv in
      let hr = IsQueue-valid r rest inv.ready_queue in
      let some_ready = IsQueue-ne_null r rest inv.ready_queue in
      let state = ap (λ (x : Procs). x.p_s) only.rest ∙ ap (λ (x : Procs). x.p_s) ended.procs in
      let clock : (t.hw.timescale == 0) ≡ false =
        rw (ap (λ (x : Kernel). x.hw.timescale) ended.rest) scale in
      rw ends (
        Stops-bind (λ _. on_procs (free_pcb s.current_proc))
          (simp (some_ready, removed, hr, clock)
            (stops (
              ap (λ f. load_state (f r)) state,
              refl,
              record {
                es' = ended.es';
                fs' = ended.fs';
                queues = IsNucleus-frame _ _ inv' refl refl (λ b. (refl, refl, refl));
                free_list =
                    FreeList-apart (r ∷ rest) (free ++ members_of fam) live.free_list
                      (λ b h. ground (arith, live.apart b h, has-append b rest (pcbs_of ended.es')))
                      only;
                waiting = ended.queues;
                values = ended.values;
                soft = ended.soft;
                count = omega (arith, ended.count);
                children = λ b h. ap (λ (x : Procs). x.p_child b) only.rest ∙ kids b h;
                procs = ended_procs s.asl.procs t.asl.procs pr only.rest ended.procs;
                others = ended_others s t _ refl ended.rest;
              },
            ))))

  -- Where the running process is in no queue, every descendant of it is in one, no other pcb is ready, and the
  -- process count is that of it and them, SYS2 of it halts the machine, with all of them but
  -- itself on the free list. The queues, the free list and the tree are well-formed, and a ready pcb
  -- waits for nothing.
  pub terminate_process-last :
      (ready : List ℕ)
      → IsRunning s ready es fs free fam
      → without (members_of fam) ready ≡ []
      → s.process_count ≡ suc (length (members_of fam))
      → Stops
          (λ e s'.
            (e ≡ halted) × (s'.process_count ≡ 0) × FreeList s'.asl.procs (free ++ members_of fam))
          (terminate_process tree_fuel s.current_proc s)
  unfolding scheduler empty_proc_q add32 sub32
  terminate_process-last ready run left all =
      let (t, ended, _, ends) = terminate_process-scheduler s fam ready run in
      let live : IsLive t [] ended.es' ended.fs' (free ++ members_of fam) = rw left at ended.live in
      let none : (t.ready_q == null) ≡ true = ground (arith, live.queues.ready_queue.tail) in
      let last : sub32 t.process_count 1 ≡ 0 = omega (arith, ended.count, all) in
      let last' : (sub32 t.process_count 1 == 0) ≡ true = ground (arith, last) in
      rw ends (
        Stops-bind (λ _. on_procs (free_pcb s.current_proc))
          (simp (none, last')
            (stops (refl, last, IsRing-frame _ live.free_list (λ b m. refl) (λ b m. refl)))))
