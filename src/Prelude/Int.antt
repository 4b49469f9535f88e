-- ===== src/Prelude/Int.antt =====
-- Signed integers, for the source's int64 quantities, and Go's division, which truncates to zero.
use Prim.Native.Nat.{ℕ, zero, suc, ◌-◌, ◌/◌, ◌%◌, ◌^◌}
use virtlet.Prelude.Tests.{ltb, if◌then◌else◌}

-- `negsuc n` is -(n + 1).
pub data ℤ : Type 0 where
  pos : ℕ → ℤ
  negsuc : ℕ → ℤ

abbrev pub neg : ℕ → ℤ
neg zero = pos 0
neg (suc n) = negsuc n

-- a / b for a positive b.
abbrev pub quot : ℤ → ℕ → ℤ
quot (pos a) b = pos (a / b)
quot (negsuc a) b = neg (suc a / b)

-- The conversion uint64(a).
abbrev pub to_u64 : ℤ → ℕ
to_u64 (pos a) = a % 2 ^ 64
to_u64 (negsuc a) = 2 ^ 64 - 1 - a % 2 ^ 64

-- The 64-bit signed integer with the low bits of n.
abbrev pub to_i64 : ℕ → ℤ
to_i64 n = let w = n % 2 ^ 64 in if ltb w (2 ^ 63) then pos w else negsuc (2 ^ 64 - 1 - w)
