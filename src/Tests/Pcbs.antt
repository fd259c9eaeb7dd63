-- ===== src/Tests/Pcbs.antt =====
-- The theorems about pcb.c at concrete queues, free lists and trees.
use os_fall_2021_project.Prelude.{◌≡◌, refl, [], ◌∷◌, ◌==◌, if◌then◌else◌, drop_all}
use os_fall_2021_project.Machine.Word.{null, max_proc}
use os_fall_2021_project.Machine.Types.{State}
use os_fall_2021_project.Machine.Outcome.{ok, Returns}
use os_fall_2021_project.Pcb.{Procs, insert_proc_q, remove_proc_q, out_proc_q}
use os_fall_2021_project.Pcb.Ring.{IsQueue}
use os_fall_2021_project.Pcb.Queue.{
  Appended, Left, insert_proc_q-append, remove_proc_q-first, out_proc_q-drop,
}
use os_fall_2021_project.Pcb.Free.{alloc_pcb, init_pcbs}
use os_fall_2021_project.Pcb.FreeList.{
  FreeList, SameRest, up_to, alloc_pcb-last, init_pcbs-FreeList,
}
use os_fall_2021_project.Pcb.Tree.{insert_child, out_child}
use os_fall_2021_project.Pcb.Children.{Children, insert_child-out_child}

abbrev pub blank_state : State
blank_state = record { s_entry_hi = 0; s_cause = 0; s_status = 0; s_pc = 0; s_reg = λ _. 0 }

-- Static storage before `main`.
abbrev pub blank : Procs
blank = record {
  p_next = λ _. 0;
  p_prev = λ _. 0;
  p_prnt = λ _. 0;
  p_child = λ _. 0;
  p_next_sib = λ _. 0;
  p_prev_sib = λ _. 0;
  p_s = λ _. blank_state;
  p_time = λ _. 0;
  p_sem_add = λ _. 0;
  p_support_struct = λ _. 0;
  pcb_list_h = 0;
}

-- The queue 1, 2, 3 with the tail 3, which is the free list too.
abbrev pub three : Procs
three = record blank {
  p_next = λ p. if p == 3 then 2 else if p == 2 then 1 else 3;
  p_prev = λ p. if p == 3 then 1 else if p == 2 then 3 else 2;
  pcb_list_h = 3;
}

pub three-IsQueue : IsQueue three 3 (1 ∷ 2 ∷ 3 ∷ [])
three-IsQueue = record {
  tail = refl;
  links = (refl, refl, (refl, refl, (refl, refl)));
  distinct = (refl, (refl, (refl, tt)));
  valid = (refl, (refl, (refl, tt)));
}

-- The queue with the pcb 3 alone.
abbrev one : Procs
one = record blank { p_next = λ _. 3; p_prev = λ _. 3; pcb_list_h = 3; p_child = λ _. 7 }

one-IsQueue : IsQueue one 3 (3 ∷ [])
one-IsQueue = record {
  tail = refl;
  links = (refl, refl);
  distinct = (refl, tt);
  valid = (refl, tt);
}

insert_proc_q-append_example : Returns (Appended three 9 (1 ∷ 2 ∷ 3 ∷ [])) (insert_proc_q 3 9 three)
insert_proc_q-append_example = insert_proc_q-append (1 ∷ 2 ∷ 3 ∷ []) 9 three-IsQueue refl refl

remove_proc_q-first_example :
    Returns (Left three 1 (2 ∷ 3 ∷ []) (1 ∷ 2 ∷ 3 ∷ [])) (remove_proc_q 3 three)
remove_proc_q-first_example = remove_proc_q-first 1 (2 ∷ 3 ∷ []) three-IsQueue

out_proc_q-drop_example :
    Returns (Left three 3 (drop_all 3 (1 ∷ 2 ∷ 3 ∷ [])) (1 ∷ 2 ∷ 3 ∷ [])) (out_proc_q 3 3 three)
out_proc_q-drop_example = out_proc_q-drop (1 ∷ 2 ∷ 3 ∷ []) 3 three-IsQueue refl

init_pcbs-FreeList_example :
    Returns (λ _ s'. FreeList s' (up_to max_proc) × SameRest blank s') (init_pcbs blank)
init_pcbs-FreeList_example = init_pcbs-FreeList blank

alloc_pcb-last_example :
    Returns (λ r s'. (r ≡ 3) × FreeList s' [] × SameRest one s') (alloc_pcb one)
alloc_pcb-last_example = alloc_pcb-last 3 one-IsQueue

-- The pcb 1 with the children 2 and 3, which know it as their parent.
abbrev family : Procs
family = record blank {
  p_child = λ p. if p == 1 then 2 else null;
  p_next_sib = λ p. if p == 2 then 3 else null;
  p_prnt = λ p. if p == 2 then 1 else if p == 3 then 1 else null;
}

family-Children : Children family 1 (2 ∷ 3 ∷ [])
family-Children = record {
  chain = (refl, (refl, refl));
  distinct = (refl, (refl, tt));
  valid = (refl, (refl, tt));
}

insert_child-out_child_example :
    Returns
      (λ _ s'. Children s' 1 (9 ∷ 2 ∷ 3 ∷ []) × (out_child 9 s' ≡ ok null s'))
      (insert_child 1 9 family)
insert_child-out_child_example =
    insert_child-out_child 1 9 2 (3 ∷ []) family-Children refl refl refl refl
