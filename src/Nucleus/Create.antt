-- ===== src/Nucleus/Create.antt =====
-- SYS1: a new process.
use mathlib.Core.Path.{subst, sym}
use os_fall_2021_project.Prelude.{
  ℕ, ◌≢◌, ◌≡◌, refl, true, false, List, [], ◌∷◌, ◌++◌, arith, ◌==◌, has, has-append, reverse,
  ne_of_has, Distinct, Distinct-apart, update, update_self, update_ne, ap, ◌∙◌,
}
use os_fall_2021_project.Machine.Word.{null, add32}
use os_fall_2021_project.Machine.Types.{set_reg, v0, a1, a2}
use os_fall_2021_project.Machine.Outcome.{ok, Stop, load_state, Stops, stops, Returns-eq}
use os_fall_2021_project.Pcb
use os_fall_2021_project.Pcb.{Procs, is_pcb, mk_empty_proc_q}
use os_fall_2021_project.Pcb.Ring.{IsQueue, IsQueue-valid, IsQueue-out}
use os_fall_2021_project.Pcb.Free.{alloc_pcb}
use os_fall_2021_project.Pcb.FreeList.{FreeList, IsRing-frame, alloc_pcb-cons}
use os_fall_2021_project.Pcb.Tree.{insert_child}
use os_fall_2021_project.Pcb.Children.{Children, Children-frame, insert_child-Children}
use os_fall_2021_project.Asl.Entries.{Entry, pcbs_of}
use os_fall_2021_project.Nucleus.{Kernel, except_state}
use os_fall_2021_project.Nucleus.Scheduler.{state_copy, switch_to, switch_state}
use os_fall_2021_project.Nucleus.Exceptions.{
  create_process, copy_to_pcb, make_ready, save_current, give_result, advance_pc,
}
use os_fall_2021_project.Nucleus.Invariant.{IsNucleus, IsNucleus-members, IsNucleus-frame}
use os_fall_2021_project.Nucleus.Queues.{IsNucleus-ready}
use os_fall_2021_project.Nucleus.Semaphores.{behind_call}
use os_fall_2021_project.Nucleus.First.{FreeList-apart}

-- The pcb `p` of a new process, taken off the free list and set up from the arguments of the call.
record Prepared (s : Kernel) (c p y : ℕ) (q cs : List ℕ) (t u : Procs) : Type 0 where
  alloc : alloc_pcb s.asl.procs ≡ ok p t
  insert :
      insert_child c p (record t {
        p_s = update t.p_s p (state_copy (s.states ((except_state s).s_reg a1)) (t.p_s p));
        p_support_struct = update t.p_support_struct p ((except_state s).s_reg a2);
        p_time = update t.p_time p 0;
        p_sem_add = update t.p_sem_add p null;
      })
      ≡ ok tt u
  valid : is_pcb p ≡ true
  states :
      u.p_s
      ≡ update s.asl.procs.p_s p
          (state_copy (s.states ((except_state s).s_reg a1)) (s.asl.procs.p_s p))
  support : u.p_support_struct p ≡ (except_state s).s_reg a2
  time : u.p_time p ≡ 0
  free : FreeList u (y ∷ q)
  family : Children u c (p ∷ cs)
  frame :
      (b : ℕ)
      → has b (p ∷ y ∷ q) ≡ false
      → (u.p_next b ≡ s.asl.procs.p_next b)
        × (u.p_prev b ≡ s.asl.procs.p_prev b)
        × (u.p_sem_add b ≡ s.asl.procs.p_sem_add b)

prepare :
    (s : Kernel) (c p y : ℕ) (q cs : List ℕ)
    → FreeList s.asl.procs (p ∷ y ∷ q)
    → is_pcb c ≡ true
    → Children s.asl.procs c cs
    → (c == p) ≡ false
    → has p cs ≡ false
    → (t : Procs) × (u : Procs) × Prepared s c p y q cs t u
prepare s c p y q cs free hc family other out =
    let (r, t, alloc, (first, left, cleared, hn, hv, frame)) =
      Returns-eq (alloc_pcb-cons p y q free) in
    let hp = IsQueue-valid p (y ∷ q) free in
    let t1 : Procs = record t {
      p_s = update t.p_s p (state_copy (s.states ((except_state s).s_reg a1)) (t.p_s p));
      p_support_struct = update t.p_support_struct p ((except_state s).s_reg a2);
      p_time = update t.p_time p 0;
      p_sem_add = update t.p_sem_add p null;
    } in
    let family1 : Children t1 c cs =
      Children-frame c cs family
        (ap (λ x. x.p_child c) cleared ∙ update_ne s.asl.procs.p_child p null c (ground arith))
        (λ b m.
          ap (λ x. x.p_next_sib b) cleared
          ∙ update_ne s.asl.procs.p_next_sib p null b (ground (arith, ne_of_has p b cs))) in
    let (u', u, insert, (family2, (sibs, kids, same))) =
      Returns-eq (insert_child-Children hc cs p family1 hp out) in
    let states : t.p_s ≡ s.asl.procs.p_s = ap (λ x. x.p_s) cleared in
    (
      t,
      u,
      record {
        alloc = alloc ∙ ap (λ v. ok v t) first;
        insert = insert;
        valid = hp;
        states =
            ap (λ x. x.p_s) same
            ∙ ap (λ m. update m p (state_copy (s.states ((except_state s).s_reg a1)) (m p))) states;
        support = ap (λ x. x.p_support_struct p) same ∙ update_self t.p_support_struct p _;
        time = ap (λ x. x.p_time p) same ∙ update_self t.p_time p 0;
        free =
            subst (λ h. IsQueue u h (y ∷ q)) (sym (ap (λ x. x.pcb_list_h) same))
              (IsRing-frame (reverse (y ∷ q)) left (λ b m. ap (λ x. x.p_next b) same)
                (λ b m. ap (λ x. x.p_prev b) same));
        family = family2;
        frame = λ b o.
            let ne : b ≢ p = ground arith in
            (
              ap (λ x. x.p_next b) same ∙ (frame b o).0,
              ap (λ x. x.p_prev b) same ∙ (frame b o).1,
              ap (λ x. x.p_sem_add b) same
                  ∙ update_ne t.p_sem_add p null b ne
                  ∙ ap (λ x. x.p_sem_add b) cleared
                  ∙ update_ne s.asl.procs.p_sem_add p null b ne,
            );
      },
    )

-- What SYS1 does: the pcb `p` of the new process is ready behind the others with the state and the support
-- structure of the arguments and no time, and is the first child of the caller, which goes on.
pub record Created (s : Kernel) (ready : List ℕ) (p : ℕ) (free cs : List ℕ) (es : List Entry)
    (fs : List ℕ) (e : Stop) (s' : Kernel) : Type 0 where
  pub loads : e ≡ load_state (s'.asl.procs.p_s s.current_proc)
  pub runs : s'.current_proc ≡ s.current_proc
  pub queues : IsNucleus s' (ready ++ p ∷ []) es fs
  pub left : FreeList s'.asl.procs free
  pub family : Children s'.asl.procs s.current_proc (p ∷ cs)
  pub count : s'.process_count ≡ add32 s.process_count 1
  pub states :
      s'.asl.procs.p_s
      ≡ update
          (update s.asl.procs.p_s p
            (state_copy (s.states ((except_state s).s_reg a1)) (s.asl.procs.p_s p)))
          s.current_proc
          (state_copy
            (behind_call (set_reg (except_state s) v0 0))
            (s.asl.procs.p_s s.current_proc))
  pub support : s'.asl.procs.p_support_struct p ≡ (except_state s).s_reg a2
  pub time : s'.asl.procs.p_time p ≡ 0

create_process_set_up :
    (s : Kernel) (ready : List ℕ) (p y : ℕ) (q cs : List ℕ) (es : List Entry) (fs : List ℕ)
    (t u : Procs)
    → Prepared s s.current_proc p y q cs t u
    → IsNucleus s ready es fs
    → FreeList s.asl.procs (p ∷ y ∷ q)
    → Distinct ((p ∷ y ∷ q) ++ (ready ++ pcbs_of es))
    → is_pcb s.current_proc ≡ true
    → has s.current_proc (p ∷ y ∷ q) ≡ false
    → Stops (Created s ready p (y ∷ q) cs es fs) (create_process s)
unfolding create_process copy_to_pcb make_ready save_current give_result advance_pc mk_empty_proc_q
    switch_to switch_state Pcb.load Pcb.store
create_process_set_up s ready p y q cs es fs t u pre inv free apart hc outside =
    let c = s.current_proc in
    let other : (c == p) ≡ false = ground arith in
    let s1 : Kernel = record s {
      asl = record s.asl { procs = u };
      process_count = add32 s.process_count 1;
    } in
    let inv1 : IsNucleus s1 ready es fs = IsNucleus-members s s1 inv refl refl (λ b m.
      pre.frame b (ground (arith, Distinct-apart b (p ∷ y ∷ q) (ready ++ pcbs_of es) apart))) in
    let away : has p (ready ++ pcbs_of es) ≡ false =
      ground (arith, Distinct-apart p (p ∷ y ∷ q) (ready ++ pcbs_of es) apart) in
    let (pr, put, inv2, only) = IsNucleus-ready {s = s1} p inv1 pre.valid away in
    let alloc = pre.alloc in
    let insert = pre.insert in
    let hp = pre.valid in
    let some_p : (p == null) ≡ false = ground arith in
    let back = behind_call (set_reg (except_state s) v0 0) in
    let given =
      update s.asl.procs.p_s p
        (state_copy (s.states ((except_state s).s_reg a1)) (s.asl.procs.p_s p)) in
    let left =
      FreeList-apart (p ∷ ready) (y ∷ q) pre.free
        (λ b m. ground (
          arith,
          Distinct-apart b (p ∷ y ∷ q) (ready ++ pcbs_of es) apart,
          has-append b ready (pcbs_of es),
          ne_of_has p b (y ∷ q),
          IsQueue-out p (y ∷ q) free,
        ))
        only in
    let some_c : (c == null) ≡ false = ground arith in
    simp (alloc, some_p, hp, insert, put, some_c, hc)
      (stops (record {
        loads = refl;
        runs = refl;
        queues = IsNucleus-frame _ _ inv2 refl refl (λ b. (refl, refl, refl));
        left = IsRing-frame (reverse (y ∷ q)) left (λ b m. refl) (λ b m. refl);
        family =
            Children-frame c (p ∷ cs) pre.family (ap (λ x. x.p_child c) only.rest)
              (λ b m. ap (λ x. x.p_next_sib b) only.rest);
        count = refl;
        states =
            ap (λ m. update m c (state_copy back (m c))) (ap (λ x. x.p_s) only.rest ∙ pre.states)
            ∙ ap (λ x. update given c (state_copy back x))
                (update_ne s.asl.procs.p_s p _ c (ground arith));
        support = ap (λ x. x.p_support_struct p) only.rest ∙ pre.support;
        time = ap (λ x. x.p_time p) only.rest ∙ pre.time;
      }))

-- SYS1 with two free pcbs at least, none of which is in a queue, by a running process that is not one of
-- them and whose children are known, the first free pcb not among them: the first free pcb is ready behind
-- the others with the state and the support structure of the arguments and no time, it is the first child of
-- the caller, the process count is one more, and the caller goes on behind the call with the result 0.
pub create_process-ready :
    (s : Kernel) (ready : List ℕ) (p y : ℕ) (q cs : List ℕ) (es : List Entry) (fs : List ℕ)
    → IsNucleus s ready es fs
    → FreeList s.asl.procs (p ∷ y ∷ q)
    → Distinct ((p ∷ y ∷ q) ++ (ready ++ pcbs_of es))
    → is_pcb s.current_proc ≡ true
    → has s.current_proc (p ∷ y ∷ q) ≡ false
    → Children s.asl.procs s.current_proc cs
    → has p cs ≡ false
    → Stops (Created s ready p (y ∷ q) cs es fs) (create_process s)
create_process-ready s ready p y q cs es fs inv free apart hc outside family out =
    let (t, u, pre) = prepare s s.current_proc p y q cs free hc family (ground arith) out in
    create_process_set_up s ready p y q cs es fs t u pre inv free apart hc outside
