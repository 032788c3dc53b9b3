-- ===== src/Common/Words.antt =====
-- Fixed-width integers. A value is its bit pattern, a natural number below 2 ^ w; a negative
-- number has a pattern of 2 ^ (w - 1) or more.
use Prim.Native.Nat.{ℕ, ◌+◌, ◌-◌, ◌%◌}
use mathlib.Core.Bool.{Bool}
use go_chat_msa.Common.Tests.{ltb, leb}

-- 2 ^ 64 and 2 ^ 63.
abbrev pub mod_64 : ℕ
mod_64 = 18446744073709551616

abbrev pub min_64 : ℕ
min_64 = 9223372036854775808

-- 2 ^ 32 and 2 ^ 31.
abbrev pub mod_32 : ℕ
mod_32 = 4294967296

abbrev pub min_32 : ℕ
min_32 = 2147483648

-- int64 `a + 1` and `a - 1`.
abbrev pub inc_64 : ℕ → ℕ
inc_64 a = (a + 1) % mod_64

abbrev pub dec_64 : ℕ → ℕ
dec_64 a = (a + mod_64 - 1) % mod_64

-- The conversion int32(x) of an int64.
abbrev pub int_32 : ℕ → ℕ
int_32 a = a % mod_32

-- Signed comparison of int32 patterns: shifting both by 2 ^ 31 turns it into the unsigned one.
abbrev pub slt_32 : ℕ → ℕ → Bool
slt_32 a b = ltb ((a + min_32) % mod_32) ((b + min_32) % mod_32)

abbrev pub sle_32 : ℕ → ℕ → Bool
sle_32 a b = leb ((a + min_32) % mod_32) ((b + min_32) % mod_32)

abbrev pub slt_64 : ℕ → ℕ → Bool
slt_64 a b = ltb ((a + min_64) % mod_64) ((b + min_64) % mod_64)

abbrev pub sle_64 : ℕ → ℕ → Bool
sle_64 a b = leb ((a + min_64) % mod_64) ((b + min_64) % mod_64)
