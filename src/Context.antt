-- ===== src/Context.antt =====
-- The context builder of context_builder.go.
pub mod Text
pub mod Execute
mod Truncate
mod Totals
mod Budget
mod Sorter
mod Tests
use sochdb_go.Prelude.{
  ℕ, zero, suc, ◌+◌, ◌-◌, ◌/◌, List, [], ◌∷◌, ◌++◌, map, Bool, true, false, not, Option, none, some,
  ltb, leb, ◌==◌, if◌then◌else◌, length, take, ◌^◌,
}
use sochdb_go.Prelude.Int.{ℤ, pos, negsuc}
use sochdb_go.Prelude.Result.{Result, ok, err, ◌>>=◌}
use sochdb_go.Prelude.Bytes.{Bytes, codes}
use sochdb_go.Prelude.Bytes.Order.{bytes_eq}
use Text.{trim_space}

-- ContextOutputFormat and TruncationStrategy are strings.
abbrev pub format_toon : Bytes
format_toon = codes "toon"

abbrev pub format_json : Bytes
format_json = codes "json"

abbrev pub format_markdown : Bytes
format_markdown = codes "markdown"

abbrev pub tail_drop : Bytes
tail_drop = codes "tail_drop"

abbrev pub head_drop : Bytes
head_drop = codes "head_drop"

abbrev pub proportional : Bytes
proportional = codes "proportional"

pub record Section : Type 0 where
  pub name : Bytes
  pub priority : ℤ
  pub content : Bytes
  pub token_count : ℕ

pub record ContextSection : Type 0 where
  pub name : Bytes
  pub token_count : ℕ
  pub truncated : Bool

pub record ContextResult : Type 0 where
  pub text : Bytes
  pub token_count : ℕ
  pub sections : List ContextSection
  pub truncated : Bool

pub record ContextQueryBuilder : Type 0 where
  pub session_id : Bytes
  pub token_budget : ℤ
  pub format : Bytes
  pub truncation : Bytes
  pub sections : List Section

unfoldable pub new_context_query_builder : ContextQueryBuilder
new_context_query_builder = record {
  session_id = [];
  token_budget = pos 4096;
  format = format_toon;
  truncation = tail_drop;
  sections = [];
}

unfoldable pub for_session : Bytes → ContextQueryBuilder → ContextQueryBuilder
for_session session_id b = record b { session_id = session_id }

unfoldable pub with_budget : ℤ → ContextQueryBuilder → ContextQueryBuilder
with_budget tokens b = record b { token_budget = tokens }

unfoldable pub set_format : Bytes → ContextQueryBuilder → ContextQueryBuilder
set_format format b = record b { format = format }

unfoldable pub set_truncation : Bytes → ContextQueryBuilder → ContextQueryBuilder
set_truncation strategy b = record b { truncation = strategy }

unfoldable pub estimate_tokens : Bytes → ℕ
estimate_tokens text = length text / 4

unfoldable pub literal : Bytes → ℤ → Bytes → ContextQueryBuilder → ContextQueryBuilder
literal name priority text b = record b {
  sections =
      b.sections
      ++ (record {
        name = name;
        priority = priority;
        content = text;
        token_count = estimate_tokens text;
      }
          ∷ []);
}

-- The loops that add the token counts up.
unfoldable pub total_tokens : List Section → ℕ
total_tokens [] = 0
total_tokens (s ∷ sections) = s.token_count + total_tokens sections

-- n <= budget
unfoldable pub fits : ℕ → ℤ → Bool
fits n (pos budget) = leb n budget
fits n (negsuc m) = false

-- The loop of tailDropTruncation from `token_count` on; it ends at the first section that does not
-- fit.
unfoldable pub keep_fitting : ℤ → ℕ → List Section → List Section
keep_fitting budget token_count [] = []
keep_fitting budget token_count (s ∷ sections) =
    let rest = keep_fitting budget (token_count + s.token_count) sections in
    if fits (token_count + s.token_count) budget then s ∷ rest else []

unfoldable pub tail_drop_truncation : ℤ → List Section → List Section
tail_drop_truncation budget sections = keep_fitting budget 0 sections

-- total - budget as an int of 64 bits, where it is positive, and 0 otherwise; the total is an int, so
-- only a budget below zero can make the difference wrap, and then to a negative number.
unfoldable pub to_drop : ℕ → ℤ → ℕ
to_drop total (pos budget) = total - budget
to_drop total (negsuc m) = if ltb (total + suc m) (2 ^ 63) then total + suc m else 0

-- The loop of headDropTruncation from `dropped` on: a section goes if the drop is not too large then.
unfoldable pub drop_some : ℕ → ℕ → List Section → List Section
drop_some amount dropped [] = []
drop_some amount dropped (s ∷ sections) =
    let without = drop_some amount (dropped + s.token_count) sections in
    let with_it = drop_some amount dropped sections in
    if leb (dropped + s.token_count) amount then without else s ∷ with_it

unfoldable pub head_drop_truncation : ℤ → List Section → List Section
head_drop_truncation budget sections =
    let amount = to_drop (total_tokens sections) budget in
    if amount == 0 then sections else drop_some amount 0 sections

-- `panicked` is Go's run-time panic of a slice out of range.
pub data BuildError : Type 0 where
  unknown_format : Bytes → BuildError
  marshal_failed : BuildError
  panicked : BuildError

-- s[:n]
unfoldable pub cut : Bytes → ℤ → Result BuildError Bytes
cut content (pos n) = ok (take n content)
cut content (negsuc n) = err panicked

-- if n < 1 { n = 1 }
unfoldable pub at_least_one : ℤ → ℕ
at_least_one (pos zero) = 1
at_least_one (pos (suc n)) = suc n
at_least_one (negsuc n) = 1

-- The loop of proportionalTruncation; `scale n` is int(float64(n) * factor). A length above the
-- content's is set to it, which `take` does too.
unfoldable pub scale_sections : (ℕ → ℤ) → List Section → Result BuildError (List Section)
scale_sections scale [] = ok []
scale_sections scale (s ∷ sections) = do
  content ← cut s.content (scale (length s.content))
  rest ← scale_sections scale sections
  ok (record s { content = content; token_count = at_least_one (scale s.token_count) } ∷ rest)

-- `scaling budget total n` is int(float64(n) * (float64(budget) / float64(total))).
unfoldable pub proportional_truncation :
    (ℤ → ℕ → ℕ → ℤ) → ℤ → List Section → Result BuildError (List Section)
proportional_truncation scaling budget sections =
    if fits (total_tokens sections) budget
    then ok sections
    else scale_sections (scaling budget (total_tokens sections)) sections

unfoldable pub apply_truncation :
    (ℤ → ℕ → ℕ → ℤ) → Bytes → ℤ → List Section → Result BuildError (List Section)
apply_truncation scaling truncation budget sections =
    if bytes_eq truncation tail_drop
    then ok (tail_drop_truncation budget sections)
    else if bytes_eq truncation head_drop
    then ok (head_drop_truncation budget sections)
    else if bytes_eq truncation proportional
    then proportional_truncation scaling budget sections
    else ok sections

-- The sections, each with its heading.
unfoldable pub toon_parts : List Section → Bytes
toon_parts [] = []
toon_parts (s ∷ sections) =
    codes "[" ++ (s.name ++ (codes "]\n" ++ (s.content ++ (codes "\n\n" ++ toon_parts sections))))

unfoldable pub markdown_parts : List Section → Bytes
markdown_parts [] = []
markdown_parts (s ∷ sections) =
    codes "## "
    ++ (s.name ++ (codes "\n\n" ++ (s.content ++ (codes "\n\n" ++ markdown_parts sections))))
