-- ===== src/Common/Int.antt =====
-- Signed integers over the native numbers, as Go's `int` types hold them.
use Prim.Native.Nat.{ℕ, suc, ◌+◌, ◌-◌, ◌*◌, ◌%◌, ◌^◌}
use merged_mining_pool.Common.Tests.{ltb, leb, ◌==◌, if◌then◌else◌}

-- `negsuc n` is -(n + 1).
pub data ℤ : Type 0 where
  pos : ℕ → ℤ
  negsuc : ℕ → ℤ

-- The conversion of a signed integer to `uint8`, `uint32`, `uint64`: two's complement of w bits.
abbrev pub to_unsigned : ℕ → ℤ → ℕ
to_unsigned w (pos n) = n % 2 ^ w
to_unsigned w (negsuc n) = 2 ^ w - suc (n % 2 ^ w)

-- The integer that a bit pattern of w bits stands for in two's complement.
abbrev pub of_unsigned : ℕ → ℕ → ℤ
of_unsigned w u = if ltb u (2 ^ (w - 1)) then pos u else negsuc (2 ^ w - 1 - u)

-- A multiple of an integer, and an integer less a number.
abbrev pub times : ℤ → ℕ → ℤ
times (pos n) k = pos (n * k)
times (negsuc n) k = if k == 0 then pos 0 else negsuc ((n + 1) * k - 1)

abbrev pub minus : ℤ → ℕ → ℤ
minus (pos n) k = if leb k n then pos (n - k) else negsuc (k - n - 1)
minus (negsuc n) k = negsuc (n + k)
