-- ===== src/Prelude/Bytes/Segments.antt =====
-- Texts that are cut at slashes.
use Prim.Native.Nat.{ℕ}
use mathlib.Core.Path.{◌≡◌, refl}
use mathlib.Core.Logic.{◌≢◌}
use mathlib.Core.Bool.{◌&&◌}
use mathlib.Core.List.{List, [], ◌∷◌, ◌++◌}
use native.Mathlib.Omega.{arith}
use sochdb_go.Prelude.Lists.{All}
use sochdb_go.Prelude.Bytes.Order.{bytes_eq}
use sochdb_go.Prelude.Bytes.Prefix.{has_prefix}

-- The text has no '/'.
abbrev pub NoSlash : List ℕ → Type 0
NoSlash = All (λ b. b ≢ b'/')

pub has_prefix-common : (p xs ys : List ℕ) → has_prefix (p ++ xs) (p ++ ys) ≡ has_prefix xs ys
unfolding has_prefix
has_prefix-common [] xs ys = refl
has_prefix-common (b ∷ p) xs ys = ground (arith, has_prefix-common p xs ys)

pub bytes_eq-common : (p xs ys : List ℕ) → bytes_eq (p ++ xs) (p ++ ys) ≡ bytes_eq xs ys
unfolding bytes_eq
bytes_eq-common [] xs ys = refl
bytes_eq-common (b ∷ p) xs ys = ground (arith, bytes_eq-common p xs ys)

-- A first segment and what follows its slash are compared one after the other.
pub has_prefix-segment :
    (a b p xs : List ℕ)
    → NoSlash a
    → NoSlash b
    → has_prefix (a ++ (b'/' ∷ p)) (b ++ (b'/' ∷ xs)) ≡ (bytes_eq a b && has_prefix p xs)
unfolding has_prefix bytes_eq
has_prefix-segment [] [] p xs h k = ground arith
has_prefix-segment [] (y ∷ b) p xs h k = ground arith
has_prefix-segment (x ∷ a) [] p xs h k = ground arith
has_prefix-segment (x ∷ a) (y ∷ b) p xs h k = ground (arith, has_prefix-segment a b p xs h.1 k.1)

pub bytes_eq-segment :
    (a b xs ys : List ℕ)
    → NoSlash a
    → NoSlash b
    → bytes_eq (a ++ (b'/' ∷ xs)) (b ++ (b'/' ∷ ys)) ≡ (bytes_eq a b && bytes_eq xs ys)
unfolding bytes_eq
bytes_eq-segment [] [] xs ys h k = ground arith
bytes_eq-segment [] (y ∷ b) xs ys h k = ground arith
bytes_eq-segment (x ∷ a) [] xs ys h k = ground arith
bytes_eq-segment (x ∷ a) (y ∷ b) xs ys h k = ground (arith, bytes_eq-segment a b xs ys h.1 k.1)
