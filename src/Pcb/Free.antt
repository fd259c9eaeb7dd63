-- ===== src/Pcb/Free.antt =====
-- The free list of pcb.c: `freePcb`, `allocPcb` and `initPcbs`.
use os_fall_2021_project.Prelude.{ℕ, ◌+◌, not, ◌==◌, if◌then◌else◌, update}
use os_fall_2021_project.Machine.Word.{null, max_proc}
use os_fall_2021_project.Machine.Outcome.{M, pure, ◌>>=◌, ◌>>◌, get, modify, for_range}
use os_fall_2021_project.Pcb.{
  Procs, store, set_next, set_prev, set_prnt, set_child, set_next_sib, set_prev_sib, insert_proc_q,
  remove_proc_q, mk_empty_proc_q,
}

unfoldable pub free_pcb : ℕ → M Procs (Unit {0})
free_pcb p = do
  s ← get
  tp ← insert_proc_q s.pcb_list_h p
  modify (λ t. record t { pcb_list_h = tp })

abbrev pub set_sem_add : ℕ → ℕ → M Procs (Unit {0})
set_sem_add p v = store (λ s. record s { p_sem_add = update s.p_sem_add p v }) p

abbrev pub set_time : ℕ → ℕ → M Procs (Unit {0})
set_time p v = store (λ s. record s { p_time = update s.p_time p v }) p

abbrev pub set_support_struct : ℕ → ℕ → M Procs (Unit {0})
set_support_struct p v =
    store (λ s. record s { p_support_struct = update s.p_support_struct p v }) p

-- `Initialize the values of the PCB`.
unfoldable pub clear_pcb : ℕ → M Procs (Unit {0})
unfolding store
clear_pcb temp = do
  set_next temp null
  set_prev temp null
  set_sem_add temp null
  set_child temp null
  set_prnt temp null
  set_next_sib temp null
  set_prev_sib temp null
  set_time temp 0
  set_support_struct temp null

-- The second test reads the list after the removal, so the last pcb of the list is not initialized.
unfoldable pub alloc_pcb : M Procs ℕ
alloc_pcb = do
  s ← get
  if s.pcb_list_h == null then pure null else do
    (temp, tp) ← remove_proc_q s.pcb_list_h
    modify (λ t. record t { pcb_list_h = tp })
    if not (tp == null) then (do clear_pcb temp; pure temp) else pure temp

unfoldable pub init_pcbs : M Procs (Unit {0})
unfolding mk_empty_proc_q
init_pcbs = do
  modify (λ s. record s { pcb_list_h = mk_empty_proc_q })
  for_range max_proc 0 (λ i. free_pcb (i + 1))
