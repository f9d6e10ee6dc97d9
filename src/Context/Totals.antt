-- ===== src/Context/Totals.antt =====
-- The sort keeps the sections, and so their tokens.
use mathlib.Core.Logic.{∥∥₁_elim}
use mathlib.Core.List.{Perm, Permᴰ}
use native.Mathlib.Nat.{ℕ_set}
use sochdb_go.Prelude.{◌≡◌, refl, ap, ◌∙◌, List, length, arith}
use sochdb_go.Context.{Section, total_tokens}

total_tokens-Permᴰ : {xs ys : List Section} → Permᴰ xs ys → total_tokens xs ≡ total_tokens ys
unfolding total_tokens
total_tokens-Permᴰ Permᴰ.nil = refl
total_tokens-Permᴰ (Permᴰ.cons e d) =
    omega (arith, total_tokens-Permᴰ d, ap (λ (s : Section). s.token_count) e)
total_tokens-Permᴰ (Permᴰ.swap e f) =
    omega (arith, ap (λ (s : Section). s.token_count) e, ap (λ (s : Section). s.token_count) f)
total_tokens-Permᴰ (Permᴰ.trans d e) = total_tokens-Permᴰ d ∙ total_tokens-Permᴰ e

pub total_tokens-Perm : {xs ys : List Section} → Perm xs ys → total_tokens xs ≡ total_tokens ys
total_tokens-Perm w = ∥∥₁_elim w (ℕ_set _ _) total_tokens-Permᴰ

length-Permᴰ : {xs ys : List Section} → Permᴰ xs ys → length xs ≡ length ys
length-Permᴰ Permᴰ.nil = refl
length-Permᴰ (Permᴰ.cons e d) = omega (arith, length-Permᴰ d)
length-Permᴰ (Permᴰ.swap e f) = refl
length-Permᴰ (Permᴰ.trans d e) = length-Permᴰ d ∙ length-Permᴰ e

pub length-Perm : {xs ys : List Section} → Perm xs ys → length xs ≡ length ys
length-Perm w = ∥∥₁_elim w (ℕ_set _ _) length-Permᴰ
