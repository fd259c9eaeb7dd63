-- ===== src/Pcb.antt =====
-- pcb.c of phase 3 (phase 2 has the same text): process queues, the process tree and the free list.
-- The pcbs are those of `procTable`, and the pointer to the entry `i` of that table is `i + 1`; 0,
-- which static storage starts with, and `null` point at no pcb, and a read through them faults. Each
-- field of `pcb_t` is a map from pointers. A function that takes the address of a tail pointer takes
-- the pointer and returns the new one.
pub mod Seg
pub mod Ring
pub mod Insert
pub mod Cut
pub mod Remove
pub mod Out
pub mod Queue
pub mod Free
pub mod Tree
pub mod FreeList
pub mod Children
use os_fall_2021_project.Prelude.{
  ℕ, zero, suc, ◌+◌, Bool, ◌&&◌, ◌||◌, not, ◌==◌, if◌then◌else◌, update, in_range,
}
use os_fall_2021_project.Machine.Word.{null, max_proc}
use os_fall_2021_project.Machine.Types.{State}
use os_fall_2021_project.Machine.Outcome.{ok, fault, out_of_fuel, M, pure, ◌>>=◌, ◌>>◌}

-- The fields of every `pcb_t`, and `pcbList_h`.
pub record Procs : Type 0 where
  pub p_next : ℕ → ℕ
  pub p_prev : ℕ → ℕ
  pub p_prnt : ℕ → ℕ
  pub p_child : ℕ → ℕ
  pub p_next_sib : ℕ → ℕ
  pub p_prev_sib : ℕ → ℕ
  pub p_s : ℕ → State
  pub p_time : ℕ → ℕ
  pub p_sem_add : ℕ → ℕ
  pub p_support_struct : ℕ → ℕ
  pub pcb_list_h : ℕ

abbrev pub is_pcb : ℕ → Bool
is_pcb = in_range max_proc

-- A read of a field, and a write that gives the new record.
unfoldable pub load : {A : Type 0} → (Procs → ℕ → A) → ℕ → M Procs A
load field p s = if is_pcb p then ok (field s p) s else fault

unfoldable pub store : (Procs → Procs) → ℕ → M Procs (Unit {0})
store write p s = if is_pcb p then ok tt (write s) else fault

abbrev pub get_next : ℕ → M Procs ℕ
get_next = load (λ s. s.p_next)

abbrev pub get_prev : ℕ → M Procs ℕ
get_prev = load (λ s. s.p_prev)

abbrev pub set_next : ℕ → ℕ → M Procs (Unit {0})
set_next p v = store (λ s. record s { p_next = update s.p_next p v }) p

abbrev pub set_prev : ℕ → ℕ → M Procs (Unit {0})
set_prev p v = store (λ s. record s { p_prev = update s.p_prev p v }) p

abbrev pub set_prnt : ℕ → ℕ → M Procs (Unit {0})
set_prnt p v = store (λ s. record s { p_prnt = update s.p_prnt p v }) p

abbrev pub set_child : ℕ → ℕ → M Procs (Unit {0})
set_child p v = store (λ s. record s { p_child = update s.p_child p v }) p

abbrev pub set_next_sib : ℕ → ℕ → M Procs (Unit {0})
set_next_sib p v = store (λ s. record s { p_next_sib = update s.p_next_sib p v }) p

abbrev pub set_prev_sib : ℕ → ℕ → M Procs (Unit {0})
set_prev_sib p v = store (λ s. record s { p_prev_sib = update s.p_prev_sib p v }) p

unfoldable pub mk_empty_proc_q : ℕ
mk_empty_proc_q = null

unfoldable pub empty_proc_q : ℕ → Bool
empty_proc_q tp = tp == null

unfoldable pub insert_proc_q : ℕ → ℕ → M Procs ℕ
unfolding load store empty_proc_q
insert_proc_q tp p = if empty_proc_q tp then (do set_next p p; set_prev p p; pure p) else (do
  let temp = tp
  set_next p temp
  set_prev p (← get_prev temp)
  set_prev temp p
  set_next (← get_prev p) p
  pure p)

-- The pcb that was removed, and the new tail.
unfoldable pub remove_proc_q : ℕ → M Procs (ℕ × ℕ)
unfolding load store empty_proc_q
remove_proc_q tp = if empty_proc_q tp then pure (null, tp) else do
  let tail = tp
  prev ← get_prev tail
  if prev == tail then pure (tail, null) else do
    remove ← get_prev tail
    set_next (← get_prev remove) (← get_next remove)
    set_prev (← get_next remove) (← get_prev remove)
    pure (remove, tp)

-- `while(temp != p && temp != tail) temp = temp->p_next;`
unfoldable pub out_loop : ℕ → (temp p tail : ℕ) → M Procs ℕ
unfolding load
out_loop zero temp p tail = λ _. out_of_fuel
out_loop (suc fuel) temp p tail =
    if not (temp == p) && not (temp == tail)
    then (do next ← get_next temp; out_loop fuel next p tail)
    else pure temp

-- The body of `if(temp == p)`.
unfoldable pub out_found : ℕ → (temp tail p : ℕ) → M Procs (ℕ × ℕ)
unfolding load store
out_found tp temp tail p = do
  set_prev (← get_next p) (← get_prev p)
  set_next (← get_prev p) (← get_next p)
  if not (temp == tail)
      then pure (temp, tp)
      else do next ← get_next tail; pure (temp, if next == tail then null else next)

-- The pcb that was removed or `null`, and the new tail. A queue of pcbs without repetition has at
-- most `max_proc` of them, so the loop is given that many rounds and one for its last test.
unfoldable pub out_proc_q : ℕ → ℕ → M Procs (ℕ × ℕ)
unfolding load empty_proc_q
out_proc_q tp p = if empty_proc_q p || empty_proc_q tp then pure (null, tp) else do
  let tail = tp
  first ← get_next tail
  temp ← out_loop (max_proc + 1) first p tail
  if temp == p then out_found tp temp tail p else pure (null, tp)

unfoldable pub head_proc_q : ℕ → M Procs ℕ
unfolding load empty_proc_q
head_proc_q tp = if empty_proc_q tp then pure null else get_prev tp
