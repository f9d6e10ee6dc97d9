-- ===== src/Context/Execute.antt =====
-- formatOutput and Execute. sort.Slice, json.Marshal of a map and the float scaling are parameters.
use sochdb_go.Prelude.{ℕ, List, [], ◌∷◌, map, false, not, Option, none, some, if◌then◌else◌}
use sochdb_go.Prelude.Int.{ℤ}
use sochdb_go.Prelude.Result.{Result, ok, err, ◌>>=◌}
use sochdb_go.Prelude.Bytes.{Bytes}
use sochdb_go.Prelude.Bytes.Order.{bytes_eq}
use sochdb_go.Context.{
  Section, ContextSection, ContextResult, ContextQueryBuilder, BuildError, unknown_format,
  marshal_failed, format_toon, format_json, format_markdown, total_tokens, fits, apply_truncation,
  toon_parts, markdown_parts,
}
use sochdb_go.Context.Text.{trim_space}

unfoldable pub format_toon_text : List Section → Bytes
format_toon_text sections = trim_space (toon_parts sections)

unfoldable pub format_markdown_text : List Section → Bytes
format_markdown_text sections = trim_space (markdown_parts sections)

-- `data[name] = content` on a map as an association list.
unfoldable pub set_content : Bytes → Bytes → List (Bytes × Bytes) → List (Bytes × Bytes)
set_content name content [] = (name, content) ∷ []
set_content name content ((n, c) ∷ contents) =
    if bytes_eq n name then (n, content) ∷ contents else (n, c) ∷ set_content name content contents

unfoldable pub collect_contents : List (Bytes × Bytes) → List Section → List (Bytes × Bytes)
collect_contents contents [] = contents
collect_contents contents (s ∷ sections) =
    collect_contents (set_content s.name s.content contents) sections

abbrev pub marshalled : Option Bytes → Result BuildError Bytes
marshalled none = err marshal_failed
marshalled (some text) = ok text

pub record BuildEnv : Type 0 where
  -- sort.Slice by priority
  pub sort_slice : List Section → List Section
  -- json.Marshal of a map of strings
  pub marshal_map : List (Bytes × Bytes) → Option Bytes
  -- int(float64(n) * (float64(budget) / float64(total))) of a budget, a total and n
  pub scaling : ℤ → ℕ → ℕ → ℤ

module _ (env : BuildEnv) where
  unfoldable pub format_output : Bytes → List Section → Result BuildError Bytes
  format_output format sections =
      if bytes_eq format format_toon
      then ok (format_toon_text sections)
      else if bytes_eq format format_json
      then marshalled (env.marshal_map (collect_contents [] sections))
      else if bytes_eq format format_markdown
      then ok (format_markdown_text sections)
      else err (unknown_format format)

  abbrev pub report : Section → ContextSection
  report s = record { name = s.name; token_count = s.token_count; truncated = false }

  -- The sections that are formatted, in the order of the sort.
  unfoldable pub chosen_sections : ContextQueryBuilder → Result BuildError (List Section)
  chosen_sections b =
      let sorted = env.sort_slice b.sections in
      if fits (total_tokens sorted) b.token_budget
      then ok sorted
      else apply_truncation env.scaling b.truncation b.token_budget sorted

  unfoldable pub execute : ContextQueryBuilder → Result BuildError ContextResult
  execute b = do
    sections ← chosen_sections b
    text ← format_output b.format sections
    ok (record {
      text = text;
      token_count = total_tokens sections;
      sections = map report sections;
      truncated = not (fits (total_tokens (env.sort_slice b.sections)) b.token_budget);
    })
