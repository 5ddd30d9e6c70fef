-- ===== src/Prelude/Int.antt =====
-- Signed integers over the native numbers, under the library's names, and their two's complement.
use Prim.Native.Nat.{ℕ, ◌-◌, ◌^◌, ◌<◌}
use hpgs.Prelude.Tests.{ltb, if◌then◌else◌}

-- `negsuc n` is -(n + 1).
pub data ℤ : Type 0 where
  pos : ℕ → ℤ
  negsuc : ℕ → ℤ

-- What a `w`-bit signed type holds.
abbrev pub Fits : ℕ → ℤ → Type 0
Fits w (pos n) = n < 2 ^ (w - 1)
Fits w (negsuc n) = n < 2 ^ (w - 1)

-- The signed value of a `w`-bit pattern.
abbrev pub of_pattern : ℕ → ℕ → ℤ
of_pattern w n = if ltb n (2 ^ (w - 1)) then pos n else negsuc (2 ^ w - 1 - n)
