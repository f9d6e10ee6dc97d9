-- ===== src/Context/Truncate.antt =====
-- What the truncations leave of the sections.
use sochdb_go.Prelude.{
  ℕ, zero, suc, ◌+◌, ◌-◌, ◌≤◌, ◌⊎◌, ◌≡◌, refl, ap, List, [], ◌∷◌, ◌++◌, true, false, Bool-cases,
  inl, inr, length, arith,
}
use mathlib.Core.Path.{subst}
use sochdb_go.Prelude.Int.{ℤ, pos, negsuc}
use sochdb_go.Prelude.Result.{ok, bind-ok}
use sochdb_go.Context.{
  Section, total_tokens, fits, keep_fitting, to_drop, drop_some, head_drop_truncation, cut,
  at_least_one, scale_sections,
}

-- A list that does not fit behind `n` tokens with one more section.
abbrev pub Overflows : ℤ → ℕ → List Section → Type 0
Overflows budget n [] = Unit {0}
Overflows budget n (s ∷ rest) = fits (n + s.token_count) budget ≡ false

-- The sections that are kept are the longest prefix that fits.
pub keep_fitting_lem :
    (budget : ℤ) (n : ℕ) (sections : List Section)
    → (dropped : List Section) × (sections ≡ keep_fitting budget n sections ++ dropped)
      × Overflows budget (n + total_tokens (keep_fitting budget n sections)) dropped
unfolding keep_fitting total_tokens
keep_fitting_lem budget n [] = ([], refl, tt)
keep_fitting_lem budget n (s ∷ sections) = elim (Bool-cases (fits (n + s.token_count) budget)) [
  | inl e ↦
      let (dropped, split, over) = keep_fitting_lem budget (n + s.token_count) sections in
      (
        dropped,
        rw e (ap (λ l. s ∷ l) split),
        rw e (subst (λ m. Overflows budget m dropped) (omega arith) over),
      )
  | inr e ↦ (s ∷ sections, rw e refl, rw e (subst (λ m. fits m budget ≡ false) (omega arith) e))
]

pub keep_fitting-fits :
    (budget : ℤ) (n : ℕ) (sections : List Section)
    → (keep_fitting budget n sections ≡ [])
      ⊎ (fits (n + total_tokens (keep_fitting budget n sections)) budget ≡ true)
unfolding keep_fitting total_tokens
keep_fitting-fits budget n [] = inl refl
keep_fitting-fits budget n (s ∷ sections) = elim (Bool-cases (fits (n + s.token_count) budget)) [
  | inl e ↦ rw e (
      inr (elim (keep_fitting-fits budget (n + s.token_count) sections) [
        | inl none_left ↦ rw none_left (subst (λ m. fits m budget ≡ true) (omega arith) e)
        | inr rest ↦ subst (λ m. fits m budget ≡ true) (omega arith) rest
      ]))
  | inr e ↦ rw e (inl refl)
]

-- What goes and what stays of the tokens.
pub drop_some-total :
    (amount dropped : ℕ) (sections : List Section)
    → dropped ≤ amount
    → dropped + total_tokens sections ≤ amount + total_tokens (drop_some amount dropped sections)
unfolding drop_some total_tokens
drop_some-total amount dropped [] h = omega arith
drop_some-total amount dropped (s ∷ sections) h = ground (
  arith,
  drop_some-total amount (dropped + s.token_count) sections,
  drop_some-total amount dropped sections,
)

pub head_drop-total :
    (budget : ℕ) (sections : List Section)
    → budget ≤ total_tokens sections
    → budget ≤ total_tokens (head_drop_truncation (pos budget) sections)
unfolding head_drop_truncation to_drop
head_drop-total budget sections h =
    ground (arith, drop_some-total (total_tokens sections - budget) 0 sections)

at_least_one-pos : (z : ℤ) → 1 ≤ at_least_one z
unfolding at_least_one
at_least_one-pos (pos zero) = omega arith
at_least_one-pos (pos (suc n)) = omega arith
at_least_one-pos (negsuc n) = omega arith

pub scale_sections-total :
    (scale : ℕ → ℤ) (sections result : List Section)
    → scale_sections scale sections ≡ ok result
    → (length result ≡ length sections) × (length sections ≤ total_tokens result)
unfolding scale_sections total_tokens
scale_sections-total scale [] result h = ground arith
scale_sections-total scale (s ∷ sections) result h =
    bind-ok (cut s.content (scale (length s.content))) _ h (λ content e1 h1.
      bind-ok (scale_sections scale sections) _ h1 (λ rest e2 h2.
        let (same, enough) = scale_sections-total scale sections rest e2 in
        let one : 1 ≤ at_least_one (scale s.token_count) = at_least_one-pos (scale s.token_count) in
        ground arith))
