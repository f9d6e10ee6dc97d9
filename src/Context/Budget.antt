-- ===== src/Context/Budget.antt =====
-- What Execute returns under each truncation strategy.
use mathlib.Core.List.{Perm}
use native.Mathlib.Nat.{zero-add}
use mathlib.Core.Path.{subst}
use sochdb_go.Prelude.{
  suc, In, append-nil, false, ℕ, ◌≤◌, ◌≡◌, refl, sym, ap, ◌∙◌, List, [], ◌∷◌, ◌++◌, map, Bool, true,
  not, Bool-cases, ◌⊎◌, inl, inr, length, arith,
}
use sochdb_go.Prelude.Int.{pos, ltℤ}
use sochdb_go.Prelude.Result.{ok, bind-ok}
use sochdb_go.Prelude.Bytes.Order.{bytes_eq}
use sochdb_go.Context.{
  Section, ContextResult, ContextQueryBuilder, tail_drop, head_drop, proportional, total_tokens,
  fits, tail_drop_truncation, head_drop_truncation, proportional_truncation, apply_truncation,
}
use sochdb_go.Context.Execute.{BuildEnv, format_output, report, chosen_sections, execute}
use sochdb_go.Context.Totals.{total_tokens-Perm, length-Perm}
use sochdb_go.Context.Truncate.{
  Overflows, keep_fitting_lem, keep_fitting-fits, head_drop-total, scale_sections-total,
}

-- No later section has a lower priority number.
abbrev pub ByPriority : List Section → Type 0
ByPriority [] = Unit {0}
ByPriority (s ∷ sections) =
    ((t : Section) → In t sections → ltℤ t.priority s.priority ≡ false) × ByPriority sections

-- sort.Slice permutes the sections so that they are in order.
pub record LawfulEnv (env : BuildEnv) : Type 0 where
  pub sort-ByPriority : (sections : List Section) → ByPriority (env.sort_slice sections)
  pub sort-Perm : (sections : List Section) → Perm (env.sort_slice sections) sections

In-append_right : (t : Section) (xs ys : List Section) → In t ys → In t (xs ++ ys)
In-append_right t [] ys h = h
In-append_right t (x ∷ xs) ys h = inr (In-append_right t xs ys h)

ByPriority-split :
    (xs ys : List Section)
    → ByPriority (xs ++ ys)
    → (s t : Section) → In s xs
    → In t ys
    → ltℤ t.priority s.priority ≡ false
ByPriority-split [] ys h s t i j = absurd i
ByPriority-split (x ∷ xs) ys (first, later) s t (inl e) j =
    rw e (first t (In-append_right t xs ys j))
ByPriority-split (x ∷ xs) ys (first, later) s t (inr i) j = ByPriority-split xs ys later s t i j

length-map : {A B : Type 0} (f : A → B) (xs : List A) → length (map f xs) ≡ length xs
length-map f [] = refl
length-map f (x ∷ xs) = ap suc (length-map f xs)

not-eq-true : (t : Bool) → not t ≡ true → t ≡ false
not-eq-true true h = cc
not-eq-true false h = refl

over-le : (n budget : ℕ) → fits n (pos budget) ≡ false → budget ≤ n
unfolding fits
over-le n budget h = ground arith

module _ (env : BuildEnv) (law : LawfulEnv env) where
  -- What every result says of the sections that were chosen.
  abbrev pub Reports : ContextQueryBuilder → ContextResult → List Section → Type 0
  Reports b r chosen =
      (r.sections ≡ map (report env) chosen)
      × (r.token_count ≡ total_tokens chosen)
      × (r.truncated ≡ not (fits (total_tokens b.sections) b.token_budget))

  execute-Reports :
      (b : ContextQueryBuilder) (r : ContextResult)
      → execute env b ≡ ok r
      → (chosen : List Section) × (chosen_sections env b ≡ ok chosen) × Reports b r chosen
  unfolding execute
  execute-Reports b r h = bind-ok (chosen_sections env b) _ h (λ chosen e1 h1.
      bind-ok (format_output env b.format chosen) _ h1 (λ text e2 h2.
        let same = total_tokens-Perm (law.sort-Perm b.sections) in (chosen, e1, (cc, cc, cc))))

  -- What the tail drop chooses: the sections in order are those that are kept and those that are
  -- dropped. The kept ones fit, one more would not, and no dropped one has a lower priority number.
  abbrev pub DropsTail : ContextQueryBuilder → List Section → List Section → Type 0
  DropsTail b chosen dropped =
      (env.sort_slice b.sections ≡ chosen ++ dropped)
      × ((chosen ≡ []) ⊎ (fits (total_tokens chosen) b.token_budget ≡ true))
      × Overflows b.token_budget (total_tokens chosen) dropped
      × ((kept lost : Section)
          → In kept chosen
          → In lost dropped
          → ltℤ lost.priority kept.priority ≡ false)

  keep_fitting-DropsTail :
      (b : ContextQueryBuilder)
      → (dropped : List Section) × DropsTail b
          (tail_drop_truncation b.token_budget (env.sort_slice b.sections))
          dropped
  unfolding tail_drop_truncation
  keep_fitting-DropsTail b =
      let sorted : List Section = env.sort_slice b.sections in
      let (dropped, split, over) = keep_fitting_lem b.token_budget 0 sorted in
      (
        dropped,
        (
          split,
          rw zero-add at (keep_fitting-fits b.token_budget 0 sorted),
          rw zero-add at over,
          ByPriority-split _ dropped (subst ByPriority split (law.sort-ByPriority b.sections)),
        ),
      )

  chosen-DropsTail :
      (b : ContextQueryBuilder) (chosen : List Section)
      → b.truncation ≡ tail_drop
      → chosen_sections env b ≡ ok chosen
      → (dropped : List Section) × DropsTail b chosen dropped
  unfolding chosen_sections apply_truncation bytes_eq
  chosen-DropsTail b chosen strategy h =
      elim (Bool-cases (fits (total_tokens (env.sort_slice b.sections)) b.token_budget)) [
        | inl e ↦
            let same : env.sort_slice b.sections ≡ chosen = let h' = rw e at h in cc in
            (
              [],
              (
                same ∙ sym (append-nil chosen),
                inr (subst (λ l. fits (total_tokens l) b.token_budget ≡ true) same e),
                tt,
                λ kept lost i j. absurd j,
              ),
            )
        | inr e ↦
            let same : tail_drop_truncation b.token_budget (env.sort_slice b.sections) ≡ chosen =
              let h' = rw (e, strategy) at h in cc in
            subst (λ c. (dropped : List Section) × DropsTail b c dropped) same
              (keep_fitting-DropsTail b)
      ]

  -- With the strategy "tail_drop", and a sort that orders the sections by priority: the result
  -- reports a prefix of the ordered sections, whose tokens fit the budget if there are any, and which
  -- one more section would take over the budget; no section that is dropped has a lower priority
  -- number than one that is kept. The result counts the tokens of what it reports, and is marked as
  -- truncated exactly if all sections together do not fit.
  pub execute-tail_drop :
      (b : ContextQueryBuilder) (r : ContextResult)
      → b.truncation ≡ tail_drop
      → execute env b ≡ ok r
      → (chosen : List Section) × Reports b r chosen
        × ((dropped : List Section) × DropsTail b chosen dropped)
  execute-tail_drop b r strategy h =
      let (chosen, e, reports) = execute-Reports b r h in
      (chosen, reports, chosen-DropsTail b chosen strategy e)

  marked-over :
      (b : ContextQueryBuilder) (r : ContextResult)
      → r.truncated ≡ true
      → r.truncated ≡ not (fits (total_tokens b.sections) b.token_budget)
      → fits (total_tokens (env.sort_slice b.sections)) b.token_budget ≡ false
  marked-over b r over marked =
      rw (total_tokens-Perm (law.sort-Perm b.sections)) (not-eq-true _ (sym marked ∙ over))

  -- With the strategy "head_drop" a result that is marked as truncated still counts at least the
  -- tokens of the budget (which is not negative).
  pub execute-head_drop :
      (b : ContextQueryBuilder) (r : ContextResult) (budget : ℕ)
      → b.truncation ≡ head_drop
      → b.token_budget ≡ pos budget
      → execute env b ≡ ok r
      → r.truncated ≡ true
      → budget ≤ r.token_count
  unfolding chosen_sections apply_truncation bytes_eq
  execute-head_drop b r budget strategy limit h over =
      let (chosen, e, (_, count, marked)) = execute-Reports b r h in
      let big : fits (total_tokens (env.sort_slice b.sections)) b.token_budget ≡ false =
        marked-over b r over marked in
      let drops : head_drop_truncation b.token_budget (env.sort_slice b.sections) ≡ chosen =
        let e' = rw (big, strategy) at e in cc in
      let enough : budget ≤ total_tokens (env.sort_slice b.sections) =
        over-le _ budget (rw limit at big) in
      rw (count, sym drops, limit) (head_drop-total budget (env.sort_slice b.sections) enough)

  -- With the strategy "proportional" a result that is marked as truncated counts at least one token
  -- for each section, whatever the budget.
  pub execute-proportional :
      (b : ContextQueryBuilder) (r : ContextResult)
      → b.truncation ≡ proportional
      → execute env b ≡ ok r
      → r.truncated ≡ true
      → (length r.sections ≡ length b.sections) × (length b.sections ≤ r.token_count)
  unfolding chosen_sections apply_truncation proportional_truncation bytes_eq
  execute-proportional b r strategy h over =
      let (chosen, e, (listed, count, marked)) = execute-Reports b r h in
      let big : fits (total_tokens (env.sort_slice b.sections)) b.token_budget ≡ false =
        marked-over b r over marked in
      let scaled = rw (big, strategy) at e in
      let (same, enough) = scale_sections-total _ (env.sort_slice b.sections) chosen scaled in
      let whole : length (env.sort_slice b.sections) ≡ length b.sections =
        length-Perm (law.sort-Perm b.sections) in
      (ap length listed ∙ (length-map (report env) chosen ∙ (same ∙ whole)), omega arith)
