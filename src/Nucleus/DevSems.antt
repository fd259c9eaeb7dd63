-- ===== src/Nucleus/DevSems.antt =====
-- The semaphores of the devices: which one SYS5 waits on, and which one an interrupt signals.
use os_fall_2021_project.Prelude.{
  sym, ◌∙◌, ℕ, ◌+◌, ◌-◌, ◌*◌, ◌≤◌, ◌<◌, ◌≡◌, refl, true, ◌&&◌, ◌==◌, if◌then◌else◌, arith,
  Bool-cases, inl, inr, update, not,
}
use Prim.Native.Nat.{bit_and}
use os_fall_2021_project.Machine.Word.{add32, sub32}
use os_fall_2021_project.Machine.Outcome.{Returns, returns}
use os_fall_2021_project.Nucleus.{Kernel, sem_count}
use os_fall_2021_project.Nucleus.Exceptions.{dev_sem_index}
use os_fall_2021_project.Nucleus.Interrupts.{acknowledge}

-- A device of a line from 3 to 7, which is read only if it is a terminal.
pub record IsDevice (line dev read : ℕ) : Type 0 where
  pub first : 3 ≤ line
  pub last : line ≤ 7
  pub below : dev < 8
  pub reads : (read == 1) ≡ true → line ≡ 7

dev_sem_index_lem :
    (line dev read : ℕ)
    → IsDevice line dev read
    → dev_sem_index line dev read ≡ (line - 3) * 8 + dev + (if read == 1 then 8 else 0)
unfolding dev_sem_index add32 sub32
dev_sem_index_lem line dev read d =
    let first = d.first in
    let last = d.last in
    let below = d.below in
    elim (Bool-cases (read == 1)) [ inl e ↦ rw e (omega arith) | inr ne ↦ rw ne (omega arith) ]

-- Where SYS5 computes the same index for two devices of the lines 3 to 7, of which only terminals are read, that
-- index is below the one of the clock, and they are the same device and the same half of a terminal.
pub dev_sem_index-bounds :
    (line dev read line' dev' read' : ℕ)
    → IsDevice line dev read
    → IsDevice line' dev' read'
    → dev_sem_index line dev read ≡ dev_sem_index line' dev' read'
    → (dev_sem_index line dev read < sem_count - 1)
      × (line ≡ line')
      × (dev ≡ dev')
      × ((read == 1) ≡ (read' == 1))
dev_sem_index-bounds line dev read line' dev' read' d d' same =
    let here = dev_sem_index_lem line dev read d in
    let there = dev_sem_index_lem line' dev' read' d' in
    let meet = sym here ∙ same ∙ there in
    let low = d.below in
    let low' = d'.below in
    let top = d.last in
    let top' = d'.last in
    let start = d.first in
    let start' = d'.first in
    rw here (elim (Bool-cases (read == 1)) [
      | inl e ↦
          let is = d.reads e in
          elim (Bool-cases (read' == 1)) [
            | inl e' ↦
                let is' = d'.reads e' in
                let found = rw (e, e') at meet in
                rw (e, e') (omega (arith, is), is ∙ sym is', omega (arith, is, is', found), refl)
            | inr ne' ↦ let found = rw (e, ne') at meet in absurd (omega (arith, is, found))
          ]
      | inr ne ↦ elim (Bool-cases (read' == 1)) [
        | inl e' ↦
            let is' = d'.reads e' in
            let found = rw (ne, e') at meet in absurd (omega (arith, is', found))
        | inr ne' ↦
            let found = rw (ne, ne') at meet in
            rw (ne, ne') (omega arith, omega (arith, found), omega (arith, found), refl)
      ]
    ])

-- Given the index of a device, the acknowledgement gives the index of the semaphore on which SYS5 waits for
-- that device: for a terminal that of its receiver if the transmitter is ready, and that of the transmitter
-- if it is not. It writes the command of that device, for a transmitter that of the transmitter, and changes
-- nothing else.
pub acknowledge-dev_sem_index :
    (line dev : ℕ) (s : Kernel)
    → 3 ≤ line
    → line ≤ 7
    → dev < 8
    → Returns
        (λ r s'.
          let i = (line - 3) * 8 + dev in
          let receives = (line == 7) && (bit_and (s.hw.dev_reg i).d_data0 0xff == 1) in
          (r.1 ≡ dev_sem_index line dev (if receives then 1 else 0))
          × (s' ≡ record s {
            hw = record s.hw {
              dev_reg = update s.hw.dev_reg i (
                  if (line == 7) && not receives
                  then record (s.hw.dev_reg i) { d_data1 = 1 }
                  else record (s.hw.dev_reg i) { d_command = 1 });
            };
          }))
        (acknowledge line ((line - 3) * 8 + dev) s)
unfolding acknowledge
acknowledge-dev_sem_index line dev s first last below =
    let i = (line - 3) * 8 + dev in
    let plain : IsDevice line dev 0 = record {
      first = first;
      last = last;
      below = below;
      reads = λ h. ground arith;
    } in
    let own : i ≡ dev_sem_index line dev 0 = omega (arith, dev_sem_index_lem line dev 0 plain) in
    let ready = bit_and (s.hw.dev_reg i).d_data0 0xff == 1 in
    elim (Bool-cases (line == 7)) [
      | inl term ↦ elim (Bool-cases ready) [
        | inl e ↦
            let d : IsDevice line dev 1 = record {
              first = first;
              last = last;
              below = below;
              reads = λ h. ground arith;
            } in
            rw (term, e) (returns (sym (dev_sem_index_lem line dev 1 d), refl))
        | inr ne ↦ rw (term, ne) (returns (own, refl))
      ]
      | inr other ↦ rw other (returns (own, refl))
    ]
