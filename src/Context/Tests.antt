-- ===== src/Context/Tests.antt =====
-- The theorems on Execute at concrete builders, with an insertion sort.
use sochdb_go.Prelude.{ℕ, ◌*◌, ◌/◌, ◌≤◌, ◌≡◌, refl, List, [], ◌∷◌, false, none, length}
use sochdb_go.Prelude.Int.{ℤ, pos}
use sochdb_go.Prelude.Result.{Result, ok}
use sochdb_go.Prelude.Bytes.{Bytes, codes}
use sochdb_go.Prelude.Bytes.Order.{bytes_eq}
use sochdb_go.Context.{
  Section, ContextResult, ContextQueryBuilder, tail_drop, head_drop, proportional, total_tokens,
  fits, keep_fitting, tail_drop_truncation, to_drop, drop_some, head_drop_truncation, cut,
  at_least_one, scale_sections, proportional_truncation, apply_truncation,
}
use sochdb_go.Context.Execute.{BuildEnv, execute, format_output, chosen_sections}
use sochdb_go.Context.Budget.{
  LawfulEnv, Reports, DropsTail, execute-tail_drop, execute-head_drop, execute-proportional,
}
use sochdb_go.Context.Sorter.{
  insert_section, sort_sections, sort_sections-Permᴰ, sort_sections-ByPriority,
}

abbrev magnitude : ℤ → ℕ
magnitude (pos n) = n
magnitude (ℤ.negsuc n) = 0

-- Exact fractions in place of floats, and a json.Marshal that fails.
abbrev env : BuildEnv
env = record {
  sort_slice = sort_sections;
  marshal_map = λ contents. none;
  scaling = λ budget total n. pos (n * magnitude budget / total);
}

env-LawfulEnv : LawfulEnv env
env-LawfulEnv = record {
  sort-ByPriority = sort_sections-ByPriority;
  sort-Perm = λ sections. ∣ sort_sections-Permᴰ sections ∣₁;
}

-- Of the formats, one that Execute runs through in a test.
abbrev chat : Bytes → ContextQueryBuilder
chat strategy = record {
  session_id = [];
  token_budget = pos 3;
  format = codes "markdown";
  truncation = strategy;
  sections =
      record { name = codes "late"; priority = pos 9; content = codes "12345678"; token_count = 2 }
      ∷ (record { name = codes "first"; priority = pos 1; content = codes "1234"; token_count = 1 }
          ∷ (record {
            name = codes "next";
            priority = pos 2;
            content = codes "12345678";
            token_count = 2;
          }
              ∷ []));
}

abbrev built : ContextQueryBuilder → ContextResult
built b = elim (execute env b) [
  | ok r ↦ r
  | Result.err e ↦ record { text = []; token_count = 0; sections = []; truncated = false }
]

execute-tail_drop_example :
    (chosen : List Section) × Reports env env-LawfulEnv
      (chat tail_drop)
      (built (chat tail_drop))
      chosen
    × ((dropped : List Section) × DropsTail env env-LawfulEnv (chat tail_drop) chosen dropped)
unfolding execute chosen_sections format_output sort_sections insert_section total_tokens fits
    apply_truncation bytes_eq tail_drop_truncation keep_fitting
execute-tail_drop_example =
    execute-tail_drop env env-LawfulEnv (chat tail_drop) (built (chat tail_drop)) refl refl

execute-head_drop_example : 3 ≤ (built (chat head_drop)).token_count
unfolding execute chosen_sections format_output sort_sections insert_section total_tokens fits
    apply_truncation bytes_eq head_drop_truncation drop_some to_drop
execute-head_drop_example =
    execute-head_drop env env-LawfulEnv (chat head_drop) (built (chat head_drop)) 3 refl refl refl
      refl

execute-proportional_test :
    (length (built (chat proportional)).sections ≡ length (chat proportional).sections)
    × (length (chat proportional).sections ≤ (built (chat proportional)).token_count)
unfolding execute chosen_sections format_output sort_sections insert_section total_tokens fits
    apply_truncation bytes_eq proportional_truncation scale_sections cut at_least_one
execute-proportional_test =
    execute-proportional env env-LawfulEnv (chat proportional) (built (chat proportional)) refl refl
      refl

-- Over a budget of three tokens the head drop leaves four: the most important section is dropped.
head_drop_over : (built (chat head_drop)).token_count ≡ 4
unfolding execute chosen_sections format_output sort_sections insert_section total_tokens fits
    apply_truncation bytes_eq head_drop_truncation drop_some to_drop
head_drop_over = refl
