-- ===== src/Prelude/Integers.antt =====
-- Signed integers over the native numbers, and the 32-bit `int`.
use Prim.Native.Nat.{ℕ, ◌-◌, ◌%◌}
use mathlib.Core.Bool.{Bool, true, false}
use port_agent.Prelude.Tests.{if◌then◌else◌, ltb}

-- `negsuc n` is -(n + 1).
pub data ℤ : Type 0 where
  pos : ℕ → ℤ
  negsuc : ℕ → ℤ

-- The two's complement value of a 32-bit word.
abbrev pub int_of_word : ℕ → ℤ
int_of_word w = if ltb w 2147483648 then pos w else negsuc (4294967295 - w)

-- The conversion of an `int` to uint32_t.
abbrev pub to_u32 : ℤ → ℕ
to_u32 (pos n) = n % 4294967296
to_u32 (negsuc n) = 4294967295 - n

abbrev pub is_negative_int : ℤ → Bool
is_negative_int (pos n) = false
is_negative_int (negsuc n) = true
