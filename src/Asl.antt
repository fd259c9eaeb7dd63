-- ===== src/Asl.antt =====
-- asl.c of phase 3 (phase 2 has the same text): the active semaphore list, sorted by the address of
-- the semaphore between two dummy nodes, and the free list of semaphore descriptors. The pointer to
-- the entry `i` of `semdTable` is `i + 1`; 0 and `null` point at no descriptor, and a read through
-- them faults.
pub mod Entries
pub mod Traverse
pub mod Around
pub mod Enqueue
pub mod Unlink
pub mod Link
pub mod Init
pub mod Wait
pub mod View
pub mod Remove
pub mod Out
pub mod Head
pub mod Insert
pub mod InsertNew
use os_fall_2021_project.Prelude.{
  ℕ, zero, suc, ◌+◌, ◌-◌, Bool, true, false, ◌||◌, not, ◌==◌, ltb, if◌then◌else◌, update, in_range,
}
use os_fall_2021_project.Machine.Word.{null, max_proc}
use os_fall_2021_project.Machine.Outcome.{
  ok, fault, out_of_fuel, M, pure, ◌>>=◌, ◌>>◌, get, modify, embed, for_range,
}
use os_fall_2021_project.Pcb
use os_fall_2021_project.Pcb.{
  Procs, mk_empty_proc_q, empty_proc_q, insert_proc_q, remove_proc_q, out_proc_q, head_proc_q,
}
use os_fall_2021_project.Pcb.Free.{set_sem_add}

-- The fields of every `semd_t`, `semdFree_h` and `semd_h`.
pub record Semds : Type 0 where
  pub s_next : ℕ → ℕ
  pub s_sem_add : ℕ → ℕ
  pub s_proc_q : ℕ → ℕ
  pub semd_free_h : ℕ
  pub semd_h : ℕ

-- The descriptors and the pcbs that they queue.
pub record Asl : Type 0 where
  pub semds : Semds
  pub procs : Procs

-- The size of `semdTable`, `MAXPROC+2`: the last two are the dummy nodes.
abbrev pub semd_max : ℕ
semd_max = 22

abbrev pub is_semd : ℕ → Bool
is_semd = in_range semd_max

unfoldable pub load : (Semds → ℕ → ℕ) → ℕ → M Semds ℕ
load field d s = if is_semd d then ok (field s d) s else fault

unfoldable pub store : (Semds → Semds) → ℕ → M Semds (Unit {0})
store write d s = if is_semd d then ok tt (write s) else fault

abbrev pub get_next : ℕ → M Semds ℕ
get_next = load (λ s. s.s_next)

abbrev pub get_sem_add : ℕ → M Semds ℕ
get_sem_add = load (λ s. s.s_sem_add)

abbrev pub get_proc_q : ℕ → M Semds ℕ
get_proc_q = load (λ s. s.s_proc_q)

abbrev pub set_next : ℕ → ℕ → M Semds (Unit {0})
set_next d v = store (λ s. record s { s_next = update s.s_next d v }) d

abbrev pub set_key : ℕ → ℕ → M Semds (Unit {0})
set_key d v = store (λ s. record s { s_sem_add = update s.s_sem_add d v }) d

abbrev pub set_proc_q : ℕ → ℕ → M Semds (Unit {0})
set_proc_q d v = store (λ s. record s { s_proc_q = update s.s_proc_q d v }) d

-- Code over the descriptors, and code over the pcbs.
abbrev pub on_semds : {A : Type 0} → M Semds A → M Asl A
on_semds m s = embed (λ t d. record t { semds = d }) s (m s.semds)

abbrev pub on_procs : {A : Type 0} → M Procs A → M Asl A
on_procs m s = embed (λ t d. record t { procs = d }) s (m s.procs)

unfoldable pub semd_alloc : ℕ → M Semds ℕ
unfolding load store mk_empty_proc_q
semd_alloc sem_add = do
  s ← get
  if s.semd_free_h == null || s.semd_free_h == 0
      then (do modify (λ t. record t { semd_free_h = null }); pure null)
      else (do
        let temp = s.semd_free_h
        next ← get_next temp
        modify (λ t. record t { semd_free_h = next })
        set_key temp sem_add
        set_proc_q temp mk_empty_proc_q
        pure temp)

-- `while(current->s_next->s_semAdd < semAdd) current = current->s_next;`, the addresses compared as
-- unsigned words.
unfoldable pub traverse_loop : ℕ → (sem_add current : ℕ) → M Semds ℕ
unfolding load
traverse_loop zero sem_add current = λ _. out_of_fuel
traverse_loop (suc fuel) sem_add current = do
  next ← get_next current
  key ← get_sem_add next
  if ltb key sem_add then traverse_loop fuel sem_add next else pure current

-- The walk makes at most a round for each descriptor.
unfoldable pub traverse_asl : ℕ → M Semds ℕ
traverse_asl sem_add = do s ← get; traverse_loop semd_max sem_add s.semd_h

unfoldable pub semd_dealloc : ℕ → M Semds (Unit {0})
unfolding load store mk_empty_proc_q
semd_dealloc d = do
  temp_child ← get_next d
  set_next d (← get_next temp_child)
  s ← get
  if not (s.semd_free_h == 0) || not (s.semd_free_h == null)
      then set_next temp_child s.semd_free_h
      else pure tt
  modify (λ t. record t { semd_free_h = temp_child })
  set_key temp_child null
  set_proc_q temp_child mk_empty_proc_q

-- The end of `insertBlocked`: `p` onto the queue of the descriptor behind `temp`.
unfoldable pub enqueue : (sem_add p temp : ℕ) → M Asl Bool
unfolding load store
enqueue sem_add p temp = do
  d ← on_semds (get_next temp)
  tp ← on_semds (get_proc_q d)
  tp' ← on_procs (insert_proc_q tp p)
  on_semds (set_proc_q d tp')
  on_procs (set_sem_add p sem_add)
  pure false

-- `true` means that there is no free descriptor.
unfoldable pub insert_blocked : (sem_add p : ℕ) → M Asl Bool
unfolding load store
insert_blocked sem_add p = do
  temp ← on_semds (traverse_asl sem_add)
  temp2 ← on_semds (get_next temp)
  key ← on_semds (get_sem_add temp2)
  if key == sem_add then enqueue sem_add p temp else do
    temp_new ← on_semds (semd_alloc sem_add)
    if temp_new == null then pure true else do
      on_semds (set_next temp_new temp2)
      on_semds (set_next temp temp_new)
      enqueue sem_add p temp

-- `semdDealloc` if the queue of the descriptor behind `temp` is empty.
unfoldable pub dealloc_if_empty : (temp temp_child : ℕ) → M Asl (Unit {0})
unfolding load empty_proc_q
dealloc_if_empty temp temp_child = do
  left ← on_semds (get_proc_q temp_child)
  if empty_proc_q left then on_semds (semd_dealloc temp) else pure tt

unfoldable pub remove_blocked : ℕ → M Asl ℕ
unfolding load store
remove_blocked sem_add = do
  temp ← on_semds (traverse_asl sem_add)
  temp_child ← on_semds (get_next temp)
  key ← on_semds (get_sem_add temp_child)
  if not (key == sem_add) then pure null else do
    tp ← on_semds (get_proc_q temp_child)
    (temp_pcb, tp') ← on_procs (remove_proc_q tp)
    on_semds (set_proc_q temp_child tp')
    dealloc_if_empty temp temp_child
    on_procs (set_sem_add temp_pcb null)
    pure temp_pcb

-- Where `p` is not in the queue, the last write goes through the null pointer.
unfoldable pub out_blocked : ℕ → M Asl ℕ
unfolding load store
out_blocked p = do
  temp ← on_semds (traverse_asl (← on_procs (Pcb.load (λ s. s.p_sem_add) p)))
  temp_child ← on_semds (get_next temp)
  key ← on_semds (get_sem_add temp_child)
  sem_add ← on_procs (Pcb.load (λ s. s.p_sem_add) p)
  if not (key == sem_add) then pure null else do
    tp ← on_semds (get_proc_q temp_child)
    (temp_pcb, tp') ← on_procs (out_proc_q tp p)
    on_semds (set_proc_q temp_child tp')
    dealloc_if_empty temp temp_child
    on_procs (set_sem_add temp_pcb null)
    pure temp_pcb

unfoldable pub head_blocked : ℕ → M Asl ℕ
unfolding load empty_proc_q
head_blocked sem_add = do
  temp ← on_semds (traverse_asl sem_add)
  temp_child ← on_semds (get_next temp)
  key ← on_semds (get_sem_add temp_child)
  if not (key == sem_add) then pure null else do
    tp ← on_semds (get_proc_q temp_child)
    if not (empty_proc_q tp) then on_procs (head_proc_q tp) else pure null

-- The entry `i` of `semdTable` is the pointer `i + 1`: the dummy nodes are 21 and 22.
unfoldable pub init_asl : M Semds (Unit {0})
unfolding store mk_empty_proc_q
init_asl = do
  modify (λ s. record s { semd_free_h = null })
  for_range (max_proc - 1) 1 (λ i. set_next i (i + 1))
  set_next (max_proc + 1) (max_proc + 2)
  set_next (max_proc + 2) null
  set_key (max_proc + 1) 0
  set_key (max_proc + 2) null
  set_proc_q (max_proc + 1) mk_empty_proc_q
  set_proc_q (max_proc + 2) mk_empty_proc_q
  modify (λ s. record s { semd_free_h = 1 })
  modify (λ s. record s { semd_h = max_proc + 1 })
