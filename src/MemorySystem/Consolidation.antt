-- ===== src/MemorySystem/Consolidation.antt =====
-- Consolidator of memory_consolidation.go. The clock is read once for each call.
pub mod Stored
pub mod Writes
pub mod Contradictions
pub mod Covers
use sochdb_go.Prelude.{
  ℕ, zero, suc, List, [], ◌∷◌, ◌++◌, map, Bool, true, false, not, Option, none, some, if◌then◌else◌,
  take,
}
use sochdb_go.Prelude.Int.{ℤ, pos, negsuc, ltℤ}
use sochdb_go.Prelude.Bytes.{Bytes, codes}
use sochdb_go.Prelude.Bytes.Order.{bytes_eq}
use sochdb_go.Prelude.Maps.{Dict, lookup, set_entry}
use sochdb_go.Overlay.Traces.{sub_i64}
use sochdb_go.MemorySystem.{Fields, RawAssertion, CanonicalFact, ConsolidationConfig, Reals}

pub record Consolidator (F : Type 0) : Type 0 where
  pub namespace : Bytes
  pub config : ConsolidationConfig F
  pub prefix : Bytes

pub data ConsolidationError : Type 0 where
  marshal_failed store_failed unmarshal_failed : ConsolidationError

-- encoding/json, the type assertions on an interface{}, SHA-256 in hexadecimal digits, and how
-- `range` and sort.Slice order groups, assertions and times.
pub record ConsolidationEnv (F V : Type 0) : Type 0 where
  pub reals : Reals F
  pub as_text : V → Option Bytes
  pub as_real : V → Option F
  pub int_of : F → ℤ
  pub sha256_hex : Bytes → Bytes
  pub marshal_fact : Fields V → Option Bytes
  pub marshal_raw : RawAssertion F V → Option Bytes
  pub unmarshal_raw : Bytes → Option (RawAssertion F V)
  pub marshal_contradiction : Bytes → Bytes → ℤ → Option Bytes
  pub unmarshal_contradiction : Bytes → Option (Fields V)
  pub marshal_canonical : CanonicalFact F V → Option Bytes
  pub unmarshal_canonical : Bytes → Option (CanonicalFact F V)
  pub range_groups : Dict (List (RawAssertion F V)) → Dict (List (RawAssertion F V))
  pub sort_group : List (RawAssertion F V) → List (RawAssertion F V)
  pub sort_times : List ℤ → List ℤ

abbrev pub or_standard :
    {F : Type 0} → ConsolidationConfig F → Option (ConsolidationConfig F) → ConsolidationConfig F
or_standard standard none = standard
or_standard standard (some config) = config

unfoldable pub new_consolidator :
    {F : Type 0} → ConsolidationConfig F → Bytes → Option (ConsolidationConfig F) → Consolidator F
new_consolidator standard namespace config = record {
  namespace = namespace;
  config = or_standard standard config;
  prefix = codes "consolidation:" ++ (namespace ++ codes ":");
}

module _ {F : Type 0} (c : Consolidator F) where
  unfoldable pub assertion_key : Bytes → Bytes
  assertion_key id = c.prefix ++ (codes "assertion:" ++ id)

  unfoldable pub contradiction_key : Bytes → Bytes → Bytes
  contradiction_key from to = c.prefix ++ (codes "contradiction:" ++ (from ++ (codes ":" ++ to)))

  unfoldable pub canonical_key : Bytes → Bytes
  canonical_key id = c.prefix ++ (codes "canonical:" ++ id)

abbrev pub bytes_or_nil : Option Bytes → Bytes
bytes_or_nil none = []
bytes_or_nil (some b) = b

abbrev pub group_or_nil : {A : Type 0} → Option (List A) → List A
group_or_nil none = []
group_or_nil (some group) = group

abbrev pub given_or : Bytes → Bytes → Bytes
given_or [] generated = generated
given_or (b ∷ id) generated = b ∷ id

abbrev pub time_or : ℤ → ℤ → ℤ
time_or (pos zero) now = now
time_or (pos (suc n)) now = pos (suc n)
time_or (negsuc n) now = negsuc n

abbrev pub first_time : List ℤ → ℤ
first_time [] = pos 0
first_time (t ∷ times) = t

module _ {F V : Type 0} (env : ConsolidationEnv F V) where
  unfoldable pub generate_assertion_id : RawAssertion F V → Bytes
  generate_assertion_id a =
      take 16 (env.sha256_hex (bytes_or_nil (env.marshal_fact a.fact) ++ a.source))

  unfoldable pub generate_canonical_id : RawAssertion F V → Bytes
  generate_canonical_id a = take 16 (env.sha256_hex (bytes_or_nil (env.marshal_fact a.fact)))

  -- The assertion with its id and its time.
  unfoldable pub completed : ℤ → RawAssertion F V → RawAssertion F V
  completed now a = record a {
    id = given_or a.id (generate_assertion_id a);
    timestamp = time_or a.timestamp now;
  }

  -- groups[key] = append(groups[key], a)
  unfoldable pub group_by_fact :
      List (RawAssertion F V) → Dict (List (RawAssertion F V)) → Dict (List (RawAssertion F V))
  group_by_fact [] groups = groups
  group_by_fact (a ∷ assertions) groups = group_by_fact assertions (elim (env.marshal_fact a.fact) [
    | none ↦ groups
    | some key ↦ set_entry key (group_or_nil (lookup key groups) ++ (a ∷ [])) groups
  ])

  abbrev pub field_of : Bytes → Fields V → Option V
  field_of key none = none
  field_of key (some fields) = lookup key fields

  abbrev pub text_is : Bytes → Option V → Bool
  text_is text none = false
  text_is text (some v) = elim (env.as_text v) [ none ↦ false | some t ↦ bytes_eq t text ]

  -- cont["from"] == a.ID
  unfoldable pub names : Bytes → Fields V → Bool
  names id cont = text_is id (field_of (codes "from") cont)

  abbrev pub recent : ℤ → ℤ → Option V → Bool
  recent now max_age none = true
  recent now max_age (some v) = elim (env.as_real v) [
    | none ↦ true
    | some ts ↦ not (ltℤ max_age (sub_i64 now (env.int_of ts)))
  ]

  -- A contradiction that names the assertion holds, unless it is older than MaxConflictAge.
  unfoldable pub holds : ConsolidationConfig F → ℤ → Fields V → Bool
  holds config now cont =
      if config.use_temporal_updates
      then recent now config.max_conflict_age (field_of (codes "timestamp") cont)
      else true

  -- The loop over the contradictions; it ends at the first that names the assertion.
  unfoldable pub is_contradicted : ConsolidationConfig F → ℤ → List (Fields V) → Bytes → Bool
  is_contradicted config now [] id = false
  is_contradicted config now (cont ∷ contradictions) id =
      let rest = is_contradicted config now contradictions id in
      if names id cont then holds config now cont else rest

  unfoldable pub valid_assertions :
      ConsolidationConfig F
      → ℤ
      → List (Fields V)
      → List (RawAssertion F V)
      → List (RawAssertion F V)
  valid_assertions config now contradictions [] = []
  valid_assertions config now contradictions (a ∷ group) =
      let rest = valid_assertions config now contradictions group in
      if is_contradicted config now contradictions a.id then rest else a ∷ rest

  -- The weighted sum and the total weight; `i` counts from 0.
  unfoldable pub weighted : ℕ → List (RawAssertion F V) → F → F → F × F
  weighted i [] weighted_sum total_weight = (weighted_sum, total_weight)
  weighted i (a ∷ assertions) weighted_sum total_weight =
      let weight : F = env.reals.over env.reals.one (env.reals.of_int (pos (suc i))) in
      weighted (suc i) assertions
        (env.reals.plus weighted_sum (env.reals.times a.confidence weight))
        (env.reals.plus total_weight weight)

  unfoldable pub merge_confidence : List (RawAssertion F V) → F
  merge_confidence [] = env.reals.zero_real
  merge_confidence (a ∷ []) = a.confidence
  merge_confidence (a ∷ b ∷ rest) =
      let (weighted_sum, total_weight) =
        weighted 0 (a ∷ b ∷ rest) env.reals.zero_real env.reals.zero_real in
      env.reals.over weighted_sum total_weight

  abbrev pub source_of : RawAssertion F V → Bytes
  source_of a = a.source

  abbrev pub time_of : RawAssertion F V → ℤ
  time_of a = a.timestamp

  -- The canonical fact of the valid assertions `a` and `rest`, in this order.
  unfoldable pub canonical_fact : RawAssertion F V → List (RawAssertion F V) → CanonicalFact F V
  canonical_fact a rest = record {
    id = generate_canonical_id a;
    merged_fact = a.fact;
    confidence = merge_confidence (a ∷ rest);
    sources = map source_of (a ∷ rest);
    valid_from = first_time (env.sort_times (map time_of (a ∷ rest)));
    valid_until = none;
  }
