-- ===== src/Support/Flash.antt =====
-- The transfers of a page by `flashIO` of vmSupport.c.
use Prim.Native.Nat.{bit_or}
use os_fall_2021_project.Prelude.{ℕ, ◌*◌, ◌%◌, ◌^◌, ◌≡◌, false, Bool, ◌<◌, ◌==◌, update, ap}
use os_fall_2021_project.Machine.Word.{error_code, add32}
use os_fall_2021_project.Machine.Outcome.{Returns, Returns-mono}
use os_fall_2021_project.Nucleus.{Device}
use os_fall_2021_project.Support.{Level, Syscall, map_status}
use os_fall_2021_project.Support.Vm.{flash_io, pool_size, flash_read, flash_write}
use os_fall_2021_project.Support.Pager.{missed, flash_dev, update_twice}
use os_fall_2021_project.Support.Serves.{Keeps, Serves}
use os_fall_2021_project.Support.Pool.{is_free}

-- The device has been told what `flashIO` writes to its register.
told :
    (m : ℕ → Device) (asid page op : ℕ)
    → let k = flash_dev asid in
      let d : Device = record (m k) { d_data0 = add32 0x2002_0000 (page * 4096) } in
      let m' =
        update
          (update m k d)
          k
          (record (update m k d k) { d_command = bit_or (page * 2 ^ 8 % 2 ^ 32) op }) in
      ((m' k).d_data0 ≡ add32 0x2002_0000 (page * 4096))
      × ((m' k).d_command ≡ bit_or (page * 2 ^ 8 % 2 ^ 32) op)
told m asid page op =
    let k = flash_dev asid in
    let same =
      update_twice m k (record (m k) { d_data0 = add32 0x2002_0000 (page * 4096) })
        (λ d. record d { d_command = bit_or (page * 2 ^ 8 % 2 ^ 32) op }) in
    (ap (λ d. d.d_data0) same, ap (λ d. d.d_command) same)

module _ {user : ℕ → Bool} {sup : ℕ} {syscall : Syscall} (serves : Serves user sup syscall) where
  pub flash_io-reads :
      (t : Level)
      → Returns
          (λ _ u. Keeps sup t u)
          (flash_io syscall flash_read (t.supports sup).sup_asid (missed t sup) t)
  unfolding flash_io map_status
  flash_io-reads t =
      Returns-mono (serves.reads _ (told t.hw.dev_reg (t.supports sup).sup_asid (missed t sup) 2))
        λ _ u kept. record {
          pool = kept.pool;
          victim = kept.victim;
          link = kept.link;
          asid = kept.asid;
          tables = kept.tables;
          own = kept.own;
        }

  pub flash_io-writes :
      (t : Level) (v : ℕ)
      → v < pool_size
      → is_free (t.swap_pool v) ≡ false
      → Returns
          (λ r u. ((r == error_code) ≡ false) × Keeps sup t u)
          (flash_io syscall flash_write (t.swap_pool v).id (t.swap_pool v).page_no t)
  unfolding flash_io map_status
  flash_io-writes t v hv taken =
      Returns-mono
        (serves.writes _ v hv taken
          (told t.hw.dev_reg (t.swap_pool v).id (t.swap_pool v).page_no 3))
        λ _ u (fine, kept). (
          fine,
          record {
            pool = kept.pool;
            victim = kept.victim;
            link = kept.link;
            asid = kept.asid;
            tables = kept.tables;
            own = kept.own;
          },
        )
