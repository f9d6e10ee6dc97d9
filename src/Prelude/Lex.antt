-- ===== src/Prelude/Lex.antt =====
-- Tuples of numbers in the lexicographic order, and induction along it.
use sochdb_go.Prelude.{ℕ, zero, suc, ◌<◌, ◌≡◌, sym, ◌⊎◌, inl, inr, arith}
use mathlib.Core.Path.{subst}

abbrev pub Lex : ℕ → Type 0
Lex zero = Unit {0}
Lex (suc n) = ℕ × Lex n

abbrev pub Below : (n : ℕ) → Lex n → Lex n → Type 0
Below zero u v = ⊥
Below (suc n) (a, u) (b, v) = (a < b) ⊎ ((a ≡ b) × Below n u v)

abbrev Inducts : (n : ℕ) → Type 1
Inducts n =
    (P : Lex n → Type 0)
    → ((v : Lex n) → ((u : Lex n) → Below n u v → P u) → P v)
    → (v : Lex n) → P v

-- All tuples whose first number is below `k`.
first_below :
    (n : ℕ) (P : Lex (suc n) → Type 0)
    → Inducts n
    → ((v : Lex (suc n)) → ((u : Lex (suc n)) → Below (suc n) u v → P u) → P v)
    → (k a : ℕ) → a < k
    → (v : Lex n) → P (a, v)
first_below n P induction step zero a h = absurd (omega arith)
first_below n P induction step (suc k) a h =
    induction (λ v. P (a, v))
      (λ v later.
        step (a, v)
          (λ (b, u) less. elim less [
            | inl smaller ↦ first_below n P induction step k b (omega arith) u
            | inr (same, lower) ↦ subst (λ d. P (d, u)) (sym same) (later u lower)
          ]))

pub lex_induction : (n : ℕ) → Inducts n
lex_induction zero P step v = step v (λ u b. absurd b)
lex_induction (suc n) P step (a, v) =
    first_below n P (lex_induction n) step (suc a) a (omega arith) v
