-- ===== src/Phase1/Asl.antt =====
-- phase1/asl.c. It leaves `p_semAdd` as it is where a pcb is taken off a queue; the rest of the file
-- has the text of phase 3, on the queues of phase 1.
use os_fall_2021_project.Prelude.{ℕ, Bool, true, false, not, ◌==◌, if◌then◌else◌}
use os_fall_2021_project.Machine.Word.{null}
use os_fall_2021_project.Machine.Outcome.{M, pure, ◌>>=◌, ◌>>◌}
use os_fall_2021_project.Pcb
use os_fall_2021_project.Pcb.{empty_proc_q}
use os_fall_2021_project.Pcb.Free.{set_sem_add}
use os_fall_2021_project.Asl.{
  Asl, on_semds, on_procs, load, store, get_next, get_sem_add, get_proc_q, set_next, set_proc_q,
  semd_alloc, traverse_asl, dealloc_if_empty,
}
use os_fall_2021_project.Phase1.Pcb.{insert_proc_q, remove_proc_q, out_proc_q, head_proc_q}

-- The end of `insertBlocked`.
unfoldable pub enqueue : (sem_add p temp : ℕ) → M Asl Bool
unfolding load store
enqueue sem_add p temp = do
  d ← on_semds (get_next temp)
  tp ← on_semds (get_proc_q d)
  tp' ← on_procs (insert_proc_q tp p)
  on_semds (set_proc_q d tp')
  on_procs (set_sem_add p sem_add)
  pure false

unfoldable pub insert_blocked : (sem_add p : ℕ) → M Asl Bool
unfolding load store
insert_blocked sem_add p = do
  temp ← on_semds (traverse_asl sem_add)
  temp2 ← on_semds (get_next temp)
  key ← on_semds (get_sem_add temp2)
  if key == sem_add then enqueue sem_add p temp else do
    temp_new ← on_semds (semd_alloc sem_add)
    if temp_new == null then pure true else do
      on_semds (set_next temp_new temp2)
      on_semds (set_next temp temp_new)
      enqueue sem_add p temp

unfoldable pub remove_blocked : ℕ → M Asl ℕ
unfolding load store
remove_blocked sem_add = do
  temp ← on_semds (traverse_asl sem_add)
  temp_child ← on_semds (get_next temp)
  key ← on_semds (get_sem_add temp_child)
  if not (key == sem_add) then pure null else do
    tp ← on_semds (get_proc_q temp_child)
    (temp_pcb, tp') ← on_procs (remove_proc_q tp)
    on_semds (set_proc_q temp_child tp')
    dealloc_if_empty temp temp_child
    pure temp_pcb

unfoldable pub out_blocked : ℕ → M Asl ℕ
unfolding load store
out_blocked p = do
  temp ← on_semds (traverse_asl (← on_procs (Pcb.load (λ s. s.p_sem_add) p)))
  temp_child ← on_semds (get_next temp)
  key ← on_semds (get_sem_add temp_child)
  sem_add ← on_procs (Pcb.load (λ s. s.p_sem_add) p)
  if not (key == sem_add) then pure null else do
    tp ← on_semds (get_proc_q temp_child)
    (temp_pcb, tp') ← on_procs (out_proc_q tp p)
    on_semds (set_proc_q temp_child tp')
    dealloc_if_empty temp temp_child
    pure temp_pcb

unfoldable pub head_blocked : ℕ → M Asl ℕ
unfolding load empty_proc_q
head_blocked sem_add = do
  temp ← on_semds (traverse_asl sem_add)
  temp_child ← on_semds (get_next temp)
  key ← on_semds (get_sem_add temp_child)
  if not (key == sem_add) then pure null else do
    tp ← on_semds (get_proc_q temp_child)
    if not (empty_proc_q tp) then on_procs (head_proc_q tp) else pure null
