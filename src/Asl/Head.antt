-- ===== src/Asl/Head.antt =====
-- `headBlocked`: the first pcb that waits on a semaphore.
use os_fall_2021_project.Prelude.{ℕ, ◌≡◌, refl, true, List, ◌∷◌, ◌++◌, arith, ◌==◌}
use os_fall_2021_project.Machine.Outcome.{ok}
use os_fall_2021_project.Pcb.{empty_proc_q}
use os_fall_2021_project.Pcb.Ring.{IsQueue-ne_null}
use os_fall_2021_project.Pcb.Queue.{head_proc_q-first}
use os_fall_2021_project.Asl.{Asl, load, head_blocked}
use os_fall_2021_project.Asl.Entries.{Entry, IsAsl}
use os_fall_2021_project.Asl.Traverse.{is_semd_of}
use os_fall_2021_project.Asl.Around.{entry}
use os_fall_2021_project.Asl.Insert.{IsAsl-Around, walk_lem, spot_ok, semd_ok}

-- It is given, and nothing changes.
pub head_blocked-first :
    {s : Asl} (xs : List Entry) (d k p : ℕ) (q : List ℕ) (ys : List Entry) {fs : List ℕ}
    → IsAsl s (xs ++ entry d k (p ∷ q) ∷ ys) fs
    → head_blocked k s ≡ ok p s
unfolding head_blocked load empty_proc_q
head_blocked-first {s} xs d k p q ys inv =
    let around = IsAsl-Around xs d k (p ∷ q) ys inv in
    let temp_ok = spot_ok xs d k (p ∷ q) ys inv in
    let d_ok = is_semd_of d (semd_ok xs d k (p ∷ q) ys inv) in
    let walk = walk_lem xs d k (p ∷ q) ys inv in
    let link = around.link in
    let key = around.key in
    let same : (k == k) ≡ true = ground arith in
    let some_wait = IsQueue-ne_null p q around.queued in
    let run = head_proc_q-first p q around.queued in
    simp (walk, temp_ok, link, d_ok, key, same, some_wait, run) refl
