-- ===== src/Support/Sys.antt =====
-- sysSupport.c of phase 3: the support level exception handler and its system calls.
use Prim.Native.Nat.{bit_and, bit_or}
use os_fall_2021_project.Prelude.{
  ℕ, zero, suc, ◌+◌, ◌*◌, ◌/◌, ◌%◌, ◌^◌, ◌||◌, not, ◌==◌, ltb, if◌then◌else◌, update,
}
use os_fall_2021_project.Machine.Word.{add32, sub32, is_negative}
use os_fall_2021_project.Machine.Types.{v0, a0, a1, a2, set_reg}
use os_fall_2021_project.Machine.Outcome.{load_state, stop, fault, pure, ◌>>=◌, ◌>>◌, get, modify}
use os_fall_2021_project.Nucleus.{Device, div_signed, word_len}
use os_fall_2021_project.Support.{L, Syscall, set_device, map_status}

-- `programTrapHandler`, and `terminateUProc`, which calls it.
unfoldable pub program_trap_handler : Syscall → L (Unit {0})
program_trap_handler syscall = do
  s ← get
  _ ← syscall 4 s.link.proc_sem 0 0
  _ ← syscall 2 0 0 0
  pure tt

unfoldable pub terminate_uproc : Syscall → L (Unit {0})
terminate_uproc syscall = program_trap_handler syscall

unfoldable pub get_tod : L ℕ
unfolding div_signed
get_tod = do
  s ← get
  modify (λ t. record t { hw = record t.hw { tod_reads = t.hw.tod_reads + 1 } })
  if s.hw.timescale == 0
      then (λ _. fault)
      else pure (div_signed (s.hw.todlo s.hw.tod_reads) s.hw.timescale)

-- The three device routines differ in the register that a character is written to, in the line and
-- the third argument of SYS5, and in the semaphore that is released.
pub record Routine : Type 0 where
  pub send : ℕ → Device → Device
  pub line : ℕ
  pub read : ℕ
  pub released : ℕ

-- `devrega->devreg[devIndex].d_data0 = (*s); … d_command = PRINTCHR;`
abbrev pub printer : Routine
printer = record {
  send = λ c d. record d { d_data0 = c; d_command = 2 };
  line = 6;
  read = 0;
  released = 0;
}

abbrev pub terminal_write : Routine
terminal_write = record {
  send = λ c d. record d { d_data1 = bit_or 2 (c * 2 ^ 8 % 2 ^ 32) };
  line = 7;
  read = 0;
  released = 0;
}

abbrev pub terminal_read : Routine
terminal_read = record {
  send = λ c d. record d { d_command = bit_or 2 (c * 2 ^ 8 % 2 ^ 32) };
  line = 7;
  read = 1;
  released = 8;
}

-- The word that a byte of a string is: a `char` has a sign.
unfoldable pub char_word : ℕ → ℕ
char_word byte = let c = byte % 2 ^ 8 in if ltb c 128 then c else c + 0xffff_ff00

-- How the loop over the characters ends: by a `return`, or behind its last round.
pub data LoopEnd : Type 0 where
  returned : ℕ → LoopEnd
  finished : ℕ → LoopEnd

-- `while(i < length)`, with `n` characters left at `s`.
unfoldable pub send_loop : Syscall → Routine → (n s dev_index asid ret_code : ℕ) → L LoopEnd
unfolding add32 sub32 char_word
send_loop syscall r zero s dev_index asid ret_code = pure (finished ret_code)
send_loop syscall r (suc n) s dev_index asid ret_code = do
  t ← get
  set_device dev_index (r.send (char_word (t.bytes s)))
  code ← syscall 5 r.line asid r.read
  if not (code == 1)
      then pure (returned (sub32 0 code))
      else send_loop syscall r n (add32 s 1) dev_index asid code

-- The end of a routine: after an error it returns at once.
unfoldable pub finish_transfer : Syscall → LoopEnd → ℕ → L ℕ
unfolding map_status
finish_transfer syscall (returned code) mutex = pure code
finish_transfer syscall (finished code) mutex = do
  _ ← syscall 4 mutex 0 0
  map_status (λ w. bit_and w 1)
  pure code

-- The three routines. `ret_code` is what the variable held before the loop.
unfoldable pub transfer : Syscall → Routine → (ret_code : ℕ) → L ℕ
unfolding add32 send_loop finish_transfer map_status
transfer syscall r ret_code = do
  map_status (λ w. w / 2 * 2)
  sys_sup ← syscall 8 0 0 0
  l ← get
  let sup = l.supports sys_sup
  let s = (sup.sup_except_state 1).s_reg a1
  let length = (sup.sup_except_state 1).s_reg a2
  let asid = sup.sup_asid
  let dev_index = add32 32 asid
  if is_negative length || ltb 128 length then (do _ ← syscall 2 0 0 0; pure tt) else pure tt
  if ltb s 0xc000_0000 then (do _ ← syscall 2 0 0 0; pure tt) else pure tt
  _ ← syscall 3 (l.link.dev_mutex dev_index) 0 0
  end ← send_loop syscall r (if is_negative length then 0 else length) s dev_index asid ret_code
  finish_transfer syscall end (l.link.dev_mutex (dev_index + r.released))

unfoldable pub write_printer : Syscall → ℕ → L ℕ
unfolding transfer
write_printer syscall ret_code = transfer syscall printer ret_code

unfoldable pub write_terminal : Syscall → ℕ → L ℕ
unfolding transfer
write_terminal syscall ret_code = transfer syscall terminal_write ret_code

unfoldable pub read_terminal : Syscall → ℕ → L ℕ
unfolding transfer
read_terminal syscall ret_code = transfer syscall terminal_read ret_code

-- `garbage` is what the variables without a value hold.
unfoldable pub sup_dispatch : Syscall → (garbage code : ℕ) → L ℕ
sup_dispatch syscall garbage code =
    if code == 9
    then (do terminate_uproc syscall; pure garbage)
    else if code == 10
    then get_tod
    else if code == 11
    then write_printer syscall garbage
    else if code == 12
    then write_terminal syscall garbage
    else if code == 13
    then read_terminal syscall garbage
    else (do program_trap_handler syscall; pure garbage)

-- `except_state` is the saved state of the structure at `sup`.
unfoldable pub sup_syscall_handler : Syscall → (garbage sup : ℕ) → L (Unit {0})
unfolding add32
sup_syscall_handler syscall garbage sup = do
  s ← get
  ret_value ← sup_dispatch syscall garbage (((s.supports sup).sup_except_state 1).s_reg a0)
  t ← get
  let st = (t.supports sup).sup_except_state 1
  let back = record (set_reg st v0 ret_value) { s_pc = add32 st.s_pc word_len }
  modify (λ u. record u {
    supports = update u.supports sup (record (u.supports sup) {
      sup_except_state = update (u.supports sup).sup_except_state 1 back;
    });
  })
  λ u. stop (load_state back) u

unfoldable pub sup_gen_exception_handler : Syscall → (garbage : ℕ) → L (Unit {0})
sup_gen_exception_handler syscall garbage = do
  sup ← syscall 8 0 0 0
  s ← get
  if bit_and ((s.supports sup).sup_except_state 1).s_cause 0x7c / 4 == 8
      then sup_syscall_handler syscall garbage sup
      else program_trap_handler syscall
