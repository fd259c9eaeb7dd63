-- ===== src/Phase1/Pcb.antt =====
-- The process queues of phase1/pcb.c. `p_next` of the tail is the head. The fields are those of
-- `Pcb`, and a function that takes the address of a tail pointer returns the new one.
use os_fall_2021_project.Prelude.{ℕ, zero, suc, not, ◌==◌, if◌then◌else◌}
use os_fall_2021_project.Machine.Word.{null, max_proc}
use os_fall_2021_project.Machine.Outcome.{M, pure, ◌>>=◌, ◌>>◌}
use os_fall_2021_project.Pcb.{
  Procs, load, store, get_next, get_prev, set_next, set_prev, empty_proc_q, mk_empty_proc_q,
}

unfoldable pub insert_proc_q : ℕ → ℕ → M Procs ℕ
unfolding load store empty_proc_q
insert_proc_q tp p = if empty_proc_q tp then (do set_next p p; set_prev p p; pure p) else (do
  let temp = tp
  set_next p (← get_next temp)
  set_next temp p
  set_prev p temp
  set_prev (← get_next p) p
  pure p)

-- The pcb that was removed, and the new tail.
unfoldable pub remove_proc_q : ℕ → M Procs (ℕ × ℕ)
unfolding load store empty_proc_q mk_empty_proc_q
remove_proc_q tp = if empty_proc_q tp then pure (null, tp) else do
  head_temp ← get_next tp
  set_next tp (← get_next head_temp)
  set_prev (← get_next tp) tp
  pure (head_temp, if head_temp == tp then mk_empty_proc_q else tp)

-- `current->p_next->p_prev = current->p_prev; current->p_prev->p_next = current->p_next;`, which
-- stands twice in `outProcQ`.
unfoldable pub unlink : ℕ → M Procs (Unit {0})
unfolding load store
unlink current = do
  set_prev (← get_next current) (← get_prev current)
  set_next (← get_prev current) (← get_next current)

-- The `for` loop of `outProcQ`, by the rounds that are left.
unfoldable pub out_search : ℕ → (p current : ℕ) → M Procs ℕ
unfolding load
out_search zero p current = pure null
out_search (suc rounds) p current =
    if current == p
    then (do unlink current; pure current)
    else (do next ← get_next current; out_search rounds p next)

-- From `current = current->p_next;` on.
unfoldable pub out_rest : (tp current p : ℕ) → M Procs (ℕ × ℕ)
unfolding load
out_rest tp current p = do
  first ← get_next current
  found ← out_search max_proc p first
  pure (found, tp)

-- The pcb that was removed or `null`, and the new tail.
unfoldable pub out_proc_q : ℕ → ℕ → M Procs (ℕ × ℕ)
unfolding load empty_proc_q mk_empty_proc_q out_rest
out_proc_q tp p =
    if empty_proc_q tp
    then pure (null, tp)
    else (if not (tp == p) then out_rest tp tp p else do
      next ← get_next tp
      if tp == next
          then pure (tp, mk_empty_proc_q)
          else do unlink tp; tail ← get_prev tp; out_rest tail tp p)

unfoldable pub head_proc_q : ℕ → M Procs ℕ
unfolding load empty_proc_q
head_proc_q tp = if empty_proc_q tp then pure null else get_next tp
