-- ===== src/Prelude/Words.antt =====
-- Go's int64: products that wrap around at 64 bits.
use Prim.Native.Nat.{ℕ, zero, suc, ◌-◌, ◌*◌, ◌%◌, ◌^◌, ◌<◌, ◌≤◌}
use mathlib.Core.Logic.{◌↔◌}
use mathlib.Core.Path.{◌≡◌}
use native.Mathlib.Omega.{arith}
use openshift_capi_alicloud.Prelude.Tests.{ℤ, pos, negsuc, ltb, if◌then◌else◌}

-- The number that 64 bits stand for.
abbrev pub signed64 : ℕ → ℤ
signed64 w = if ltb w (2 ^ 63) then pos w else negsuc (2 ^ 64 - 1 - w)

abbrev pub wrap64 : ℤ → ℤ
wrap64 (pos n) = signed64 (n % 2 ^ 64)
wrap64 (negsuc n) = signed64 (2 ^ 64 - 1 - n % 2 ^ 64)

abbrev pub negated : ℕ → ℤ
negated zero = pos 0
negated (suc n) = negsuc n

-- An integer, so many times.
abbrev pub scale : ℕ → ℤ → ℤ
scale k (pos n) = pos (n * k)
scale k (negsuc n) = negated (suc n * k)

unfoldable pub mul64 : ℤ → ℕ → ℤ
mul64 z k = wrap64 (scale k z)

-- A product of positive numbers is exact as long as it is below the sign bit.
pub mul64_iff : (n k : ℕ) → (mul64 (pos n) k ≡ pos (n * k)) ↔ (n * k < 2 ^ 63)
unfolding mul64
mul64_iff n k = ground arith

abbrev pub IsAtLeast : ℕ → ℤ → Type 0
IsAtLeast m (pos n) = m ≤ n
IsAtLeast m (negsuc n) = ⊥
