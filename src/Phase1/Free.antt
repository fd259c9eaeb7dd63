-- ===== src/Phase1/Free.antt =====
-- The free list of phase1/pcb.c, on its queues.
use os_fall_2021_project.Prelude.{ℕ, ◌+◌, not, ◌==◌, if◌then◌else◌}
use os_fall_2021_project.Machine.Word.{null, max_proc}
use os_fall_2021_project.Machine.Outcome.{M, pure, ◌>>=◌, ◌>>◌, get, modify, for_range}
use os_fall_2021_project.Pcb.{Procs, mk_empty_proc_q}
use os_fall_2021_project.Pcb.Free.{clear_pcb}
use os_fall_2021_project.Phase1.Pcb.{insert_proc_q, remove_proc_q}

unfoldable pub free_pcb : ℕ → M Procs (Unit {0})
free_pcb p = do
  s ← get
  tp ← insert_proc_q s.pcb_list_h p
  modify (λ t. record t { pcb_list_h = tp })

-- The fields are initialized in the order of `clear_pcb`, if the list is not empty then.
unfoldable pub alloc_pcb : M Procs ℕ
alloc_pcb = do
  s ← get
  if s.pcb_list_h == null then pure null else do
    (temp, tp) ← remove_proc_q s.pcb_list_h
    modify (λ t. record t { pcb_list_h = tp })
    if not (tp == null) then (do clear_pcb temp; pure temp) else pure temp

unfoldable pub init_pcbs : M Procs (Unit {0})
unfolding mk_empty_proc_q
init_pcbs = do
  modify (λ s. record s { pcb_list_h = mk_empty_proc_q })
  for_range max_proc 0 (λ i. free_pcb (i + 1))
