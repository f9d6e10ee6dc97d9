-- ===== src/Prelude/Bytes/Prefix.antt =====
-- bytes.HasPrefix.
use Prim.Native.Nat.{ℕ}
use mathlib.Core.Path.{◌≡◌, refl}
use mathlib.Core.Bool.{Bool, true, false, ◌&&◌}
use mathlib.Core.List.{List, [], ◌∷◌, ◌++◌}
use native.Mathlib.Omega.{arith}
use sochdb_go.Prelude.Tests.{◌==◌}

unfoldable pub has_prefix : List ℕ → List ℕ → Bool
has_prefix [] xs = true
has_prefix (b ∷ p) [] = false
has_prefix (b ∷ p) (x ∷ xs) = (b == x) && has_prefix p xs

pub has_prefix-append : (p xs : List ℕ) → has_prefix p (p ++ xs) ≡ true
unfolding has_prefix
has_prefix-append [] xs = refl
has_prefix-append (b ∷ p) xs = ground (arith, has_prefix-append p xs)

-- What has a prefix is the prefix and a rest.
pub has_prefix→append :
    (p xs : List ℕ) → has_prefix p xs ≡ true → (rest : List ℕ) × (xs ≡ p ++ rest)
unfolding has_prefix
has_prefix→append [] xs h = (xs, refl)
has_prefix→append (b ∷ p) [] h = cc
has_prefix→append (b ∷ p) (x ∷ xs) h =
    let (rest, e) = has_prefix→append p xs (ground arith) in (rest, ground arith)

pub has_prefix-middle : (p xs : List ℕ) (c : ℕ) → has_prefix (p ++ (c ∷ [])) (p ++ (c ∷ xs)) ≡ true
unfolding has_prefix
has_prefix-middle [] xs c = ground arith
has_prefix-middle (b ∷ p) xs c = ground (arith, has_prefix-middle p xs c)
