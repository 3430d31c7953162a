-- ===== src/Prelude/Word64.antt =====
-- Go's int64 as an integer in range, with its two's complement pattern.
use luart.Prelude.Tests.{ltb, if◌then◌else◌}
use luart.Prelude.Int.{ℤ, pos, negsuc, ◌-ℤ◌, ◌≤ℤ◌}
use Prim.Native.Nat.{ℕ, ◌-◌, ◌%◌, ◌^◌, ◌<◌}
use mathlib.Core.Path.{◌≡◌}
use native.Mathlib.Omega.{arith}

abbrev pub IsInt64 : ℤ → Type 0
IsInt64 z = (negsuc (2 ^ 63 - 1) ≤ℤ z) × (z ≤ℤ pos (2 ^ 63 - 1))

-- The conversions uint64(z) and int64(u).
abbrev pub to_u64 : ℤ → ℕ
to_u64 (pos n) = n % 2 ^ 64
to_u64 (negsuc n) = 2 ^ 64 - 1 - n % 2 ^ 64

abbrev pub of_u64 : ℕ → ℤ
of_u64 u = if ltb u (2 ^ 63) then pos u else negsuc (2 ^ 64 - 1 - u)

-- The result of an int64 operation whose exact value is z.
unfoldable pub wrap : ℤ → ℤ
wrap z = of_u64 (to_u64 z)

unfoldable pub neg_ℤ : ℤ → ℤ
unfolding ◌-ℤ◌
neg_ℤ z = pos 0 -ℤ z

pub wrap_in_range : (z : ℤ) → IsInt64 z → wrap z ≡ z
unfolding wrap
wrap_in_range (pos n) (lo, hi) = ground arith
wrap_in_range (negsuc n) (lo, hi) = ground arith

pub wrap-IsInt64 : (z : ℤ) → IsInt64 (wrap z)
unfolding wrap
wrap-IsInt64 (pos n) = ground arith
wrap-IsInt64 (negsuc n) = ground arith

pub to_u64-lt : (z : ℤ) → to_u64 z < 2 ^ 64
to_u64-lt (pos n) = omega arith
to_u64-lt (negsuc n) = omega arith

pub of_u64-to_u64 : (z : ℤ) → IsInt64 z → of_u64 (to_u64 z) ≡ z
of_u64-to_u64 (pos n) h = ground arith
of_u64-to_u64 (negsuc n) h = ground arith

pub to_u64-of_u64 : (u : ℕ) → u < 2 ^ 64 → to_u64 (of_u64 u) ≡ u
to_u64-of_u64 u h = ground arith

pub of_u64-IsInt64 : (u : ℕ) → u < 2 ^ 64 → IsInt64 (of_u64 u)
of_u64-IsInt64 u h = ground arith
