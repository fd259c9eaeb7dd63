-- ===== src/Tests/Phase1s.antt =====
-- The theorems about phase 1 at concrete queues.
use os_fall_2021_project.Prelude.{◌≡◌, [], ◌∷◌}
use os_fall_2021_project.Machine.Word.{null}
use os_fall_2021_project.Machine.Outcome.{Returns}
use os_fall_2021_project.Pcb
use os_fall_2021_project.Pcb.{Procs}
use os_fall_2021_project.Pcb.Queue.{Left}
use os_fall_2021_project.Phase1.Pcb.{insert_proc_q, out_proc_q}
use os_fall_2021_project.Phase1.Turn.{turn, turned, insert_proc_q-turned}
use os_fall_2021_project.Phase1.Out.{out_proc_q-tail_lost}
use os_fall_2021_project.Tests.Pcbs.{three, three-IsQueue}

-- The queue 1, 2, 3 with the links of phase 1.
abbrev three_turned : Procs
three_turned = turn three

insert_proc_q-turned_example : insert_proc_q 3 9 three_turned ≡ turned (Pcb.insert_proc_q 3 9 three)
insert_proc_q-turned_example = insert_proc_q-turned 3 9 three_turned

out_proc_q-tail_lost_example :
    Returns
      (λ r s'. Left three null (1 ∷ 2 ∷ []) (1 ∷ 2 ∷ 3 ∷ []) r (turn s'))
      (out_proc_q 3 3 three_turned)
out_proc_q-tail_lost_example =
    out_proc_q-tail_lost {s = three_turned} (1 ∷ 2 ∷ []) 3 three-IsQueue (λ e. cc)
