-- ===== src/Nucleus/Devices.antt =====
-- The device number that an interrupt handler reads off the map of pending devices.
use os_fall_2021_project.Prelude.{
  ℕ, zero, suc, ◌+◌, ◌^◌, ◌≡◌, Option, none, some, arith, ◌==◌, if◌then◌else◌,
}
use os_fall_2021_project.Nucleus.{has_bits}
use os_fall_2021_project.Nucleus.Interrupts.{dev_no_of}

-- The lowest device whose bit is set, among `n` devices from `i` on.
unfoldable pub lowest_dev : (n i map : ℕ) → Option ℕ
lowest_dev zero i map = none
lowest_dev (suc n) i map =
    let rest = lowest_dev n (i + 1) map in if has_bits map (2 ^ i) then some i else rest

unfoldable pub swap_1_2 : Option ℕ → Option ℕ
swap_1_2 none = none
swap_1_2 (some i) = some (if i == 1 then 2 else if i == 2 then 1 else i)

-- The handler takes the lowest pending device, but mistakes the devices 1 and 2 for each other.
pub dev_no_of-lowest : (map : ℕ) → dev_no_of map ≡ swap_1_2 (lowest_dev 8 0 map)
unfolding dev_no_of lowest_dev swap_1_2
dev_no_of-lowest map = ground arith
