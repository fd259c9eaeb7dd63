-- ===== src/Nucleus/Live.antt =====
-- Pcbs that end: each leaves its queue and joins the free list.
use mathlib.Core.Path.{subst}
use os_fall_2021_project.Prelude.{
  ℕ, ◌%◌, ◌^◌, ◌≡◌, refl, true, false, List, [], ◌++◌, ap, ◌∙◌, sym, arith, ◌==◌, has, ◌*◌,
  has-append, has-without, has-keep, reverse, without, without-append, length, length-append,
  AllTrue,
}
use os_fall_2021_project.Machine.Word.{null, add32}
use os_fall_2021_project.Pcb.FreeList.{FreeList, IsRing-frame}
use os_fall_2021_project.Asl.Entries.{Entry, pcbs_of}
use os_fall_2021_project.Asl.View.{queue_of, waiters}
use os_fall_2021_project.Nucleus.{Kernel, device_sem, clock_sem}
use os_fall_2021_project.Nucleus.Invariant.{IsNucleus, IsNucleus-frame}
use os_fall_2021_project.Nucleus.Unqueue.{is_device}

-- The queues are well-formed, the free pcbs are in none of them, and a ready pcb waits for nothing.
pub record IsLive (s : Kernel) (ready : List ℕ) (es : List Entry) (fs free : List ℕ) : Type 0 where
  pub queues : IsNucleus s ready es fs
  pub free_list : FreeList s.asl.procs free
  pub apart : (b : ℕ) → has b free ≡ true → has b (ready ++ pcbs_of es) ≡ false
  pub unblocked : AllTrue (λ b. s.asl.procs.p_sem_add b == null) ready

-- From `s` to `s'` the pcbs `ps` have left the queues, where the others keep their order; the semaphores that
-- are no device's have been signalled for each pcb that left them, and the soft-block count has gone down
-- with the pcbs that wait on the others. `free` are the free pcbs of `s'`.
pub record Ended (s : Kernel) (ready : List ℕ) (es : List Entry) (ps free : List ℕ) (s' : Kernel)
    : Type 0 where
  pub es' : List Entry
  pub fs' : List ℕ
  pub live : IsLive s' (without ps ready) es' fs' free
  pub members : pcbs_of es' ≡ without ps (pcbs_of es)
  pub queues : (k : ℕ) → queue_of k es' ≡ without ps (queue_of k es)
  pub values :
      (k : ℕ)
      → is_device s k ≡ false
      → add32 (s'.mem k) (length (queue_of k es')) ≡ add32 (s.mem k) (length (queue_of k es))
  pub soft :
      add32 s'.soft_block_count (waiters (device_sem s 0) (clock_sem s) es)
      ≡ add32 s.soft_block_count (waiters (device_sem s 0) (clock_sem s) es')
  pub count : add32 s'.process_count (length ps) ≡ s.process_count % 2 ^ 32
  pub sems :
      (b : ℕ) → has b (pcbs_of es) ≡ false → s'.asl.procs.p_sem_add b ≡ s.asl.procs.p_sem_add b
  pub procs : s'.asl.procs ≡ record s.asl.procs {
    p_next = s'.asl.procs.p_next;
    p_prev = s'.asl.procs.p_prev;
    p_sem_add = s'.asl.procs.p_sem_add;
    p_child = s'.asl.procs.p_child;
    pcb_list_h = s'.asl.procs.pcb_list_h;
  }
  pub rest : s' ≡ record s {
    asl = s'.asl;
    ready_q = s'.ready_q;
    process_count = s'.process_count;
    soft_block_count = s'.soft_block_count;
    mem = s'.mem;
  }

module _ (s t : Kernel) (e : t.link ≡ s.link) where
  pub device_sem-link : (i : ℕ) → device_sem t i ≡ device_sem s i
  unfolding device_sem
  device_sem-link i = ap (λ l. add32 l.device_sema4s (4 * i % 2 ^ 32)) e

  pub clock_sem-link : clock_sem t ≡ clock_sem s
  unfolding clock_sem
  clock_sem-link = device_sem-link 48

-- No pcb.
pub Ended-none :
    {s : Kernel} {ready : List ℕ} {es : List Entry} {fs free : List ℕ}
    → IsLive s ready es fs free
    → Ended s ready es [] free s
unfolding add32
Ended-none {s} {ready} {es} {fs} live = record {
  es' = es;
  fs' = fs;
  live = live;
  members = refl;
  queues = λ k. refl;
  values = λ k h. refl;
  soft = refl;
  count = omega arith;
  sems = λ b h. refl;
  procs = refl;
  rest = refl;
}

-- The state `s` with other first children.
abbrev pub with_children : (ℕ → ℕ) → Kernel → Kernel
with_children f s = record s { asl = record s.asl { procs = record s.asl.procs { p_child = f } } }

-- The queues do not depend on them.
pub IsLive-children :
    (f : ℕ → ℕ) {s : Kernel} {ready : List ℕ} {es : List Entry} {fs free : List ℕ}
    → IsLive s ready es fs free
    → IsLive (with_children f s) ready es fs free
IsLive-children f {s} {free = free} live = record {
  queues = IsNucleus-frame s (with_children f s) live.queues refl refl (λ b. (refl, refl, refl));
  free_list = IsRing-frame (reverse free) live.free_list (λ b m. refl) (λ b m. refl);
  apart = live.apart;
  unblocked = live.unblocked;
}

pub Ended-children :
    (f : ℕ → ℕ) {s t : Kernel} {ready : List ℕ} {es : List Entry} (ps : List ℕ) {free : List ℕ}
    → Ended (with_children f s) ready es ps free t
    → Ended s ready es ps free t
unfolding device_sem clock_sem
Ended-children f ps e = record {
  es' = e.es';
  fs' = e.fs';
  live = e.live;
  members = e.members;
  queues = e.queues;
  values = e.values;
  soft = e.soft;
  count = e.count;
  sems = e.sems;
  procs = e.procs;
  rest = e.rest;
}

-- One list of pcbs after the other.
pub Ended-append :
    (ps qs : List ℕ) {s t u : Kernel} {ready : List ℕ} {es : List Entry} {free free' : List ℕ}
    → (first : Ended s ready es ps free t) → Ended t (without ps ready) first.es' qs free' u
    → Ended s ready es (ps ++ qs) free' u
unfolding add32
Ended-append ps qs {s} {t} {u} {ready} {es} {free} {free'} one two =
    let link = ap (λ (r : Kernel). r.link) one.rest in
    let lo = device_sem-link s t link 0 in
    let hi = clock_sem-link s t link in
    let more = length-append ps qs in
    let soft : add32 u.soft_block_count (waiters (device_sem s 0) (clock_sem s) one.es')
        ≡ add32 t.soft_block_count (waiters (device_sem s 0) (clock_sem s) two.es') =
      rw (lo, hi) at two.soft in
    record {
      es' = two.es';
      fs' = two.fs';
      live =
          subst (λ l. IsLive u l two.es' two.fs' free') (sym (without-append ps qs ready)) two.live;
      members = two.members ∙ ap (without qs) one.members ∙ sym (without-append ps qs (pcbs_of es));
      queues = λ k.
          two.queues k
          ∙ ap (without qs) (one.queues k)
          ∙ sym (without-append ps qs (queue_of k es));
      values = λ k h. two.values k (rw (lo, hi) h) ∙ one.values k h;
      soft = omega (arith, soft, one.soft);
      count = omega (arith, two.count, one.count);
      sems = λ b h. two.sems b (rw one.members (has-without b ps (pcbs_of es) h)) ∙ one.sems b h;
      procs = ground (arith, two.procs, one.procs);
      rest = ground (arith, two.rest, one.rest);
    }

module _ {s t : Kernel} {ready ps : List ℕ} {es : List Entry} {free : List ℕ}
    (e : Ended s ready es ps free t) (b : ℕ) where
  -- Who is in a queue, and does not end, stays in it.
  pub Ended-queued :
      has b ps ≡ false
      → has b (ready ++ pcbs_of es) ≡ true
      → has b (without ps ready ++ pcbs_of e.es') ≡ true
  Ended-queued out h =
      rw (has-append b (without ps ready) (pcbs_of e.es'), e.members)
        (ground (
          arith,
          has-append b ready (pcbs_of es),
          has-keep b ps ready out,
          has-keep b ps (pcbs_of es) out,
        ))

  -- Who is in none comes into none.
  pub Ended-absent :
      has b (ready ++ pcbs_of es) ≡ false → has b (without ps ready ++ pcbs_of e.es') ≡ false
  Ended-absent h =
      rw (has-append b (without ps ready) (pcbs_of e.es'), e.members)
        (ground (
          arith,
          has-append b ready (pcbs_of es),
          has-without b ps ready,
          has-without b ps (pcbs_of es),
        ))
