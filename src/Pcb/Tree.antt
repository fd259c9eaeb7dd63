-- ===== src/Pcb/Tree.antt =====
-- The process tree of pcb.c: each parent has a list of children, through `p_child` and `p_next_sib`.
use os_fall_2021_project.Prelude.{ℕ, zero, suc, ◌+◌, Bool, ◌==◌, if◌then◌else◌}
use os_fall_2021_project.Machine.Word.{null, max_proc}
use os_fall_2021_project.Machine.Outcome.{out_of_fuel, M, pure, ◌>>=◌, ◌>>◌}
use os_fall_2021_project.Pcb.{
  Procs, load, store, set_prnt, set_child, set_next_sib, set_prev_sib, empty_proc_q,
}

abbrev pub get_child : ℕ → M Procs ℕ
get_child = load (λ s. s.p_child)

abbrev pub get_prnt : ℕ → M Procs ℕ
get_prnt = load (λ s. s.p_prnt)

abbrev pub get_next_sib : ℕ → M Procs ℕ
get_next_sib = load (λ s. s.p_next_sib)

abbrev pub get_prev_sib : ℕ → M Procs ℕ
get_prev_sib = load (λ s. s.p_prev_sib)

unfoldable pub empty_child : ℕ → M Procs Bool
unfolding load
empty_child p = do child ← get_child p; pure (child == null)

-- Where the parent has children already, `p->p_prnt` and `p->p_prev_sib` are not written.
unfoldable pub insert_child : (prnt p : ℕ) → M Procs (Unit {0})
unfolding load store empty_proc_q empty_child
insert_child prnt p = if empty_proc_q p then pure tt else do
  none_yet ← empty_child prnt
  if none_yet
      then (do set_child prnt p; set_prnt p prnt; set_next_sib p null; set_prev_sib p null)
      else (do
        set_next_sib p (← get_child prnt)
        set_prev_sib (← get_next_sib p) p
        set_child prnt p)

unfoldable pub remove_child : ℕ → M Procs ℕ
unfolding load store
remove_child p = do
  child ← get_child p
  if child == null then pure null else do set_child p (← get_next_sib (← get_child p)); pure child

-- `while(currC != NULL)` of `outChild`; `lastChild` stands in front of `currC`.
unfoldable pub out_child_loop : ℕ → (p last_child curr_c : ℕ) → M Procs ℕ
unfolding load store
out_child_loop zero p last_child curr_c = λ _. out_of_fuel
out_child_loop (suc fuel) p last_child curr_c =
    if curr_c == null
    then pure null
    else (if curr_c == p
        then (do
          set_next_sib last_child (← get_next_sib p)
          set_prev_sib last_child (← get_prev_sib p)
          pure p)
        else (do next ← get_next_sib curr_c; out_child_loop fuel p curr_c next))

-- A parent has at most `max_proc` children, and the loop makes one more test.
unfoldable pub out_child : ℕ → M Procs ℕ
unfolding load
out_child p = do
  prnt ← get_prnt p
  if prnt == null then pure null else do
    curr_c ← get_child prnt
    if curr_c == p then remove_child prnt else out_child_loop (max_proc + 1) p null curr_c
