-- ===== src/Prelude/Int.antt =====
-- Signed integers over the native numbers: the values of an `i64`.
use Prim.Native.Nat.{ℕ, ◌-◌, ◌^◌, ◌≤◌}

-- `negsuc n` is -(n + 1).
pub data ℤ : Type 0 where
  pos : ℕ → ℤ
  negsuc : ℕ → ℤ

abbrev pub i64_max : ℕ
i64_max = 2 ^ 63 - 1

abbrev pub u64_max : ℕ
u64_max = 2 ^ 64 - 1

-- The range of an `i64`: -2^63 is `negsuc (2^63 - 1)`.
abbrev pub IsI64 : ℤ → Type 0
IsI64 (pos n) = n ≤ i64_max
IsI64 (negsuc n) = n ≤ i64_max
