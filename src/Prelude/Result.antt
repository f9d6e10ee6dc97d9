-- ===== src/Prelude/Result.antt =====
-- A Go result `(value, err)`: the value, or the error.
use mathlib.Core.Path.{◌≡◌, refl}

pub data Result (E A : Type 0) : Type 0 where
  err : E → Result E A
  ok : A → Result E A

-- The `if err != nil { return err }` between two calls.
infixl 5 ◌>>=◌
abbrev pub ◌>>=◌ : {E A B : Type 0} → Result E A → (A → Result E B) → Result E B
err e >>= next = err e
ok value >>= next = next value

-- A chain that gave no error passed through a value of its first call.
pub bind-ok :
    {E A B P : Type 0} (first : Result E A) (next : A → Result E B) {b : B}
    → (first >>= next) ≡ ok b
    → ((value : A) → first ≡ ok value → next value ≡ ok b → P)
    → P
bind-ok (err e) next h through = absurd (cc)
bind-ok (ok value) next h through = through value refl h
