-- ===== src/Nucleus/Unqueue.antt =====
-- `terminateProcess` takes a pcb off the queue it is in.
use os_fall_2021_project.Prelude.{ℕ, ◌≡◌, refl, true, false, ◌&&◌, leb, ◌==◌, arith}
use os_fall_2021_project.Machine.Word.{null, add32, sub32}
use os_fall_2021_project.Machine.Outcome.{ok}
use os_fall_2021_project.Pcb
use os_fall_2021_project.Pcb.{Procs, is_pcb, mk_empty_proc_q, out_proc_q}
use os_fall_2021_project.Asl.{Asl, out_blocked}
use os_fall_2021_project.Nucleus.{Kernel, device_sem, clock_sem}
use os_fall_2021_project.Nucleus.Exceptions.{unqueue, count_out}
use os_fall_2021_project.Prelude.{Bool, update}

-- The semaphores of the devices and of the clock.
abbrev pub is_device : Kernel → ℕ → Bool
is_device s k = leb (device_sem s 0) k && leb k (clock_sem s)

module _ (c : ℕ) (s : Kernel) (hc : is_pcb c ≡ true) where
  pub unqueue-ready :
      (tp : ℕ) (pr : Procs)
      → s.asl.procs.p_sem_add c ≡ null
      → out_proc_q s.ready_q c s.asl.procs ≡ ok (c, tp) pr
      → unqueue c s
        ≡ ok tt (record s {
          asl = record s.asl { procs = pr };
          ready_q = tp;
          process_count = sub32 s.process_count 1;
        })
  unfolding unqueue count_out mk_empty_proc_q Pcb.load
  unqueue-ready tp pr h run =
      let none : (s.asl.procs.p_sem_add c == null) ≡ true = ground arith in
      let some : (c == null) ≡ false = ground arith in simp (hc, none, run, some) refl

  module _ (k : ℕ) (a : Asl) (h : s.asl.procs.p_sem_add c ≡ k) (hk : (k == null) ≡ false)
      (run : out_blocked c s.asl ≡ ok c a) where
    pub unqueue-device :
        is_device s k ≡ true
        → unqueue c s
          ≡ ok tt (record s {
            asl = a;
            soft_block_count = sub32 s.soft_block_count 1;
            process_count = sub32 s.process_count 1;
          })
    unfolding unqueue count_out mk_empty_proc_q Pcb.load
    unqueue-device dev =
        let some : (c == null) ≡ false = ground arith in
        simp (hc, h, hk, dev) (rw run (simp (some) refl))

    pub unqueue-semaphore :
        is_device s k ≡ false
        → (k == 0) ≡ false
        → unqueue c s
          ≡ ok tt (record s {
            asl = a;
            mem = update s.mem k (add32 (s.mem k) 1);
            process_count = sub32 s.process_count 1;
          })
    unfolding unqueue count_out mk_empty_proc_q Pcb.load
    unqueue-semaphore dev above =
        let some : (c == null) ≡ false = ground arith in
        simp (hc, h, hk, dev, above) (rw run (simp (some) refl))
