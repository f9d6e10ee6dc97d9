-- ===== src/Prelude/Int.antt =====
-- Signed integers, and Go's int64 with its conversions from and to uint64.
use Prim.Native.Nat.{ℕ, ◌-◌, ◌%◌, ◌^◌, ◌<◌, compare, Ordering}
use mathlib.Core.Path.{◌≡◌}
use mathlib.Core.Bool.{Bool, true, false}
use native.Mathlib.Omega.{arith}
use sochdb_go.Prelude.Tests.{ltb, if◌then◌else◌}

-- `negsuc n` is -(n + 1).
pub data ℤ : Type 0 where
  pos : ℕ → ℤ
  negsuc : ℕ → ℤ

abbrev pub compareℤ : ℤ → ℤ → Ordering
compareℤ (pos a) (pos b) = compare a b
compareℤ (pos a) (negsuc b) = Ordering.gt
compareℤ (negsuc a) (pos b) = Ordering.lt
compareℤ (negsuc a) (negsuc b) = compare b a

-- a < b and a ≤ b
abbrev pub ltℤ : ℤ → ℤ → Bool
ltℤ a b = elim (compareℤ a b) [ Ordering.lt ↦ true | _ ↦ false ]

abbrev pub leℤ : ℤ → ℤ → Bool
leℤ a b = elim (compareℤ a b) [ Ordering.gt ↦ false | _ ↦ true ]

abbrev pub IsI64 : ℤ → Type 0
IsI64 (pos n) = n < 2 ^ 63
IsI64 (negsuc n) = n < 2 ^ 63

abbrev pub IsU64 : ℕ → Type 0
IsU64 n = n < 2 ^ 64

-- uint64(z)
unfoldable pub to_u64 : ℤ → ℕ
to_u64 (pos n) = n % 2 ^ 64
to_u64 (negsuc n) = 2 ^ 64 - 1 - n % 2 ^ 64

-- int64(n)
unfoldable pub of_u64 : ℕ → ℤ
of_u64 n = if ltb n (2 ^ 63) then pos n else negsuc (2 ^ 64 - 1 - n)

pub of_u64-to_u64 : (z : ℤ) → IsI64 z → of_u64 (to_u64 z) ≡ z
unfolding of_u64 to_u64
of_u64-to_u64 (pos n) h = ground arith
of_u64-to_u64 (negsuc n) h = ground arith

pub to_u64-IsU64 : (z : ℤ) → IsU64 (to_u64 z)
unfolding to_u64
to_u64-IsU64 (pos n) = omega arith
to_u64-IsU64 (negsuc n) = omega arith

pub to_u64-of_u64 : (n : ℕ) → IsU64 n → to_u64 (of_u64 n) ≡ n
unfolding of_u64 to_u64
to_u64-of_u64 n h = ground arith
