-- ===== src/Prelude/Int.antt =====
-- Integers over the native numbers, as far as the program's `int` values need them.
use Prim.Native.Nat.{ℕ, zero, suc, ◌+◌, ◌-◌, ◌%◌, ◌^◌}
use mathlib.Core.Bool.{Bool, true, false}
use linux_learning.Prelude.Tests.{leb, ltb, if◌then◌else◌}

-- `negsuc n` is -(n + 1).
pub data ℤ : Type 0 where
  pos : ℕ → ℤ
  negsuc : ℕ → ℤ

-- A long that is stored in an int of 32 bits.
abbrev pub to_int : ℤ → ℤ
to_int (pos n) = let r = n % 2 ^ 32 in if ltb r (2 ^ 31) then pos r else negsuc (2 ^ 32 - 1 - r)
to_int (negsuc n) = let r = n % 2 ^ 32 in if ltb r (2 ^ 31) then negsuc r else pos (2 ^ 32 - 1 - r)

-- `a >= z + b` for numbers `a`, `b` and an integer `z`.
abbrev pub ge_add : ℕ → ℤ → ℕ → Bool
ge_add a (pos n) b = leb (n + b) a
ge_add a (negsuc n) b = leb b (a + suc n)

abbrev pub is_zero : ℤ → Bool
is_zero (pos zero) = true
is_zero (pos (suc n)) = false
is_zero (negsuc n) = false
