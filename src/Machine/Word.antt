-- ===== src/Machine/Word.antt =====
-- 32-bit machine words and the address constants of h/const.h. A word is its bit pattern, a number
-- below 2 ^ 32; a signed word is negative if its top bit is set.
use os_fall_2021_project.Prelude.{ℕ, ◌+◌, ◌-◌, ◌%◌, ◌^◌, ◌≡◌, ◌<◌, Bool, ◌||◌, arith, leb, ◌==◌}

-- `NULL`, which is not 0.
abbrev pub null : ℕ
null = 0xffff_ffff

-- `ERRORCODE`, which is -1.
abbrev pub error_code : ℕ
error_code = 0xffff_ffff

-- `MAXPROC`.
abbrev pub max_proc : ℕ
max_proc = 20

unfoldable pub add32 : ℕ → ℕ → ℕ
add32 a b = (a + b) % 2 ^ 32

unfoldable pub sub32 : ℕ → ℕ → ℕ
sub32 a b = (a + 2 ^ 32 - b % 2 ^ 32) % 2 ^ 32

-- `w < 0` and `w <= 0` of a signed word.
abbrev pub is_negative : ℕ → Bool
is_negative w = leb (2 ^ 31) w

abbrev pub is_nonpositive : ℕ → Bool
is_nonpositive w = is_negative w || w == 0

pub add32-sub32 : (a b : ℕ) → a < 2 ^ 32 → add32 (sub32 a b) b ≡ a
unfolding add32 sub32
add32-sub32 a b h = omega arith

pub sub32-add32 : (a b : ℕ) → a < 2 ^ 32 → sub32 (add32 a b) b ≡ a
unfolding add32 sub32
sub32-add32 a b h = omega arith
