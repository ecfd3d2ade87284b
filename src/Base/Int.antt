-- ===== src/Base/Int.antt =====
-- Signed integers over the native numbers, and the reading of a 64-bit pattern as `int64`.
use nksrv.Base.{ℕ, ◌-◌, ◌^◌, ◌≡◌, Bool, true, false, ◌<◌, arith, ltb, if◌then◌else◌}

-- `negsuc n` is -(n + 1).
pub data ℤ : Type 0 where
  pos : ℕ → ℤ
  negsuc : ℕ → ℤ

-- `int64(n)` of a `uint64`.
abbrev pub to_int64 : ℕ → ℤ
to_int64 n = if ltb n (2 ^ 63) then pos n else negsuc (2 ^ 64 - n - 1)

-- `x >= 0`.
abbrev pub is_nonneg : ℤ → Bool
is_nonneg (pos n) = true
is_nonneg (negsuc n) = false

-- `x < y`.
abbrev pub lt_int : ℤ → ℤ → Bool
lt_int (pos a) (pos b) = ltb a b
lt_int (pos a) (negsuc b) = false
lt_int (negsuc a) (pos b) = true
lt_int (negsuc a) (negsuc b) = ltb b a

pub to_int64-is_nonneg : (n : ℕ) → n < 2 ^ 63 → to_int64 n ≡ pos n
to_int64-is_nonneg n h = ground arith
