-- ===== src/Prelude/Bytes/Endian.antt =====
-- binary.BigEndian and binary.LittleEndian, at every width.
use Prim.Native.Nat.{ℕ, zero, suc, ◌+◌, ◌*◌, ◌/◌, ◌%◌, ◌^◌, ◌<◌, compare}
use mathlib.Core.Path.{◌≡◌, refl, sym, ap, ◌∙◌}
use native.Mathlib.Nat.{pow-suc}
use mathlib.Core.List.{List, [], ◌∷◌, ◌++◌, append_assoc}
use native.Mathlib.Omega.{arith}
use sochdb_go.Prelude.Tests.{then_by, then_by_assoc}
use sochdb_go.Prelude.Lists.{length, length-append}
use sochdb_go.Prelude.Bytes.Order.{cmp_bytes}

quotient-lt : (n v : ℕ) → v < 256 ^ suc n → v / 256 < 256 ^ n
quotient-lt n v h = omega (arith, pow-suc 256 n)

-- The lowest byte first.
unfoldable pub put_le : ℕ → ℕ → List ℕ
put_le zero v = []
put_le (suc n) v = v % 256 ∷ put_le n (v / 256)

unfoldable pub get_le : List ℕ → ℕ
get_le [] = 0
get_le (b ∷ bs) = b + 256 * get_le bs

pub length-put_le : (n v : ℕ) → length (put_le n v) ≡ n
unfolding put_le
length-put_le zero v = refl
length-put_le (suc n) v = omega (arith, length-put_le n (v / 256))

pub get_le-put_le : (n v : ℕ) → v < 256 ^ n → get_le (put_le n v) ≡ v
unfolding put_le get_le
get_le-put_le zero v h = omega arith
get_le-put_le (suc n) v h = omega (arith, get_le-put_le n (v / 256) (quotient-lt n v h))

-- The highest byte first.
unfoldable pub put_be : ℕ → ℕ → List ℕ
put_be zero v = []
put_be (suc n) v = put_be n (v / 256) ++ (v % 256 ∷ [])

unfoldable pub get_be_from : ℕ → List ℕ → ℕ
get_be_from acc [] = acc
get_be_from acc (b ∷ bs) = get_be_from (acc * 256 + b) bs

unfoldable pub get_be : List ℕ → ℕ
unfolding get_be_from
get_be bs = get_be_from 0 bs

pub length-put_be : (n v : ℕ) → length (put_be n v) ≡ n
unfolding put_be
length-put_be zero v = refl
length-put_be (suc n) v =
    omega (arith, length-append {0} (put_be n (v / 256)) (v % 256 ∷ []), length-put_be n (v / 256))

get_be_from-append :
    (acc : ℕ) (xs : List ℕ) (b : ℕ)
    → get_be_from acc (xs ++ (b ∷ [])) ≡ get_be_from acc xs * 256 + b
unfolding get_be_from
get_be_from-append acc [] b = refl
get_be_from-append acc (x ∷ xs) b = get_be_from-append (acc * 256 + x) xs b

pub get_be-put_be : (n v : ℕ) → v < 256 ^ n → get_be (put_be n v) ≡ v
unfolding put_be get_be
get_be-put_be zero v h = omega arith
get_be-put_be (suc n) v h =
    get_be_from-append 0 (put_be n (v / 256)) (v % 256)
    ∙ omega (arith, get_be-put_be n (v / 256) (quotient-lt n v h))

compare-digits :
    (a b : ℕ) → compare a b ≡ then_by (compare (a / 256) (b / 256)) (compare (a % 256) (b % 256))
compare-digits a b = ground arith

cmp_bytes-cons :
    (a b : ℕ) (xs ys : List ℕ)
    → cmp_bytes (a ∷ xs) (b ∷ ys) ≡ then_by (compare a b) (cmp_bytes xs ys)
unfolding cmp_bytes
cmp_bytes-cons a b xs ys = refl

-- Among numbers of the width, the order of the big-endian bytes is the order of the numbers.
pub cmp_bytes-put_be :
    (n a b : ℕ) (xs ys : List ℕ)
    → a < 256 ^ n
    → b < 256 ^ n
    → cmp_bytes (put_be n a ++ xs) (put_be n b ++ ys) ≡ then_by (compare a b) (cmp_bytes xs ys)
unfolding put_be
cmp_bytes-put_be zero a b xs ys ha hb = ground arith
cmp_bytes-put_be (suc n) a b xs ys ha hb = simp append_assoc (
    cmp_bytes-put_be n (a / 256) (b / 256) (a % 256 ∷ xs) (b % 256 ∷ ys) (quotient-lt n a ha)
      (quotient-lt n b hb)
    ∙ ap (then_by (compare (a / 256) (b / 256))) (cmp_bytes-cons (a % 256) (b % 256) xs ys)
    ∙ sym (then_by_assoc (compare (a / 256) (b / 256)) _ _)
    ∙ ap (λ o. then_by o (cmp_bytes xs ys)) (sym (compare-digits a b)))
