-- ===== src/Prelude/Bytes/Order.antt =====
-- bytes.Equal and bytes.Compare.
use Prim.Native.Nat.{ℕ, compare, Ordering}
use Prim.Native.Nat.Ordering.{lt, eq, gt}
use mathlib.Core.Path.{◌≡◌, refl}
use mathlib.Core.Logic.{◌↔◌}
use mathlib.Core.Bool.{Bool, true, false, ◌&&◌}
use mathlib.Core.List.{List, [], ◌∷◌, ◌++◌}
use native.Mathlib.Omega.{arith}
use sochdb_go.Prelude.Tests.{◌==◌, then_by}

unfoldable pub bytes_eq : List ℕ → List ℕ → Bool
bytes_eq [] [] = true
bytes_eq [] (y ∷ ys) = false
bytes_eq (x ∷ xs) [] = false
bytes_eq (x ∷ xs) (y ∷ ys) = (x == y) && bytes_eq xs ys

pub bytes_eq_iff : (xs ys : List ℕ) → (bytes_eq xs ys ≡ true) ↔ (xs ≡ ys)
unfolding bytes_eq
bytes_eq_iff [] [] = ground arith
bytes_eq_iff [] (y ∷ ys) = ground arith
bytes_eq_iff (x ∷ xs) [] = ground arith
bytes_eq_iff (x ∷ xs) (y ∷ ys) = ground (arith, bytes_eq_iff xs ys)

pub bytes_eq_self : (xs : List ℕ) → bytes_eq xs xs ≡ true
bytes_eq_self xs = (bytes_eq_iff xs xs).1 refl

-- Lexicographic order: a proper prefix comes first.
unfoldable pub cmp_bytes : List ℕ → List ℕ → Ordering
cmp_bytes [] [] = eq
cmp_bytes [] (y ∷ ys) = lt
cmp_bytes (x ∷ xs) [] = gt
cmp_bytes (x ∷ xs) (y ∷ ys) = then_by (compare x y) (cmp_bytes xs ys)

pub cmp_bytes-append_same : (p xs ys : List ℕ) → cmp_bytes (p ++ xs) (p ++ ys) ≡ cmp_bytes xs ys
unfolding cmp_bytes
cmp_bytes-append_same [] xs ys = refl
cmp_bytes-append_same (b ∷ p) xs ys = ground (arith, cmp_bytes-append_same p xs ys)

pub cmp_bytes-eq_iff : (xs ys : List ℕ) → (cmp_bytes xs ys ≡ eq) ↔ (xs ≡ ys)
unfolding cmp_bytes
cmp_bytes-eq_iff [] [] = ground arith
cmp_bytes-eq_iff [] (y ∷ ys) = ground arith
cmp_bytes-eq_iff (x ∷ xs) [] = ground arith
cmp_bytes-eq_iff (x ∷ xs) (y ∷ ys) = ground (arith, cmp_bytes-eq_iff xs ys)

abbrev pub ◌≺◌ : List ℕ → List ℕ → Type 0
◌≺◌ xs ys = cmp_bytes xs ys ≡ lt

pub ≺_trans : (xs ys zs : List ℕ) → ◌≺◌ xs ys → ◌≺◌ ys zs → ◌≺◌ xs zs
unfolding cmp_bytes
≺_trans [] [] zs h k = k
≺_trans [] (y ∷ ys) [] h k = cc
≺_trans [] (y ∷ ys) (z ∷ zs) h k = refl
≺_trans (x ∷ xs) [] zs h k = cc
≺_trans (x ∷ xs) (y ∷ ys) [] h k = k
≺_trans (x ∷ xs) (y ∷ ys) (z ∷ zs) h k = ground (arith, ≺_trans xs ys zs)

pub ≺_irrefl : (xs : List ℕ) → ¬ (◌≺◌ xs xs)
≺_irrefl xs h = cc ((cmp_bytes-eq_iff xs xs).1 refl)

pub ≺_of_gt : (xs ys : List ℕ) → cmp_bytes xs ys ≡ gt → ◌≺◌ ys xs
unfolding cmp_bytes
≺_of_gt [] [] h = cc
≺_of_gt [] (y ∷ ys) h = cc
≺_of_gt (x ∷ xs) [] h = refl
≺_of_gt (x ∷ xs) (y ∷ ys) h = ground (arith, ≺_of_gt xs ys)
