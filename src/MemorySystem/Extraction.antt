-- ===== src/MemorySystem/Extraction.antt =====
-- ExtractionPipeline of memory_extraction.go. The clock is read once for each call.
pub mod Keys
pub mod Stored
pub mod Valid
pub mod Commits
use sochdb_go.Prelude.{
  List, [], ◌∷◌, ◌++◌, Bool, true, false, ◌&&◌, not, Option, none, some, if◌then◌else◌, take,
}
use sochdb_go.Prelude.Int.{ℤ}
use sochdb_go.Prelude.Result.{Result, ok, err}
use sochdb_go.Prelude.Bytes.{Bytes, codes}
use sochdb_go.Prelude.Bytes.Order.{bytes_eq}
use sochdb_go.Prelude.Maps.{lookup}
use sochdb_go.MemorySystem.{
  Fields, Entity, Relation, Assertion, ExtractionResult, ExtractionSchema, Reals,
}

pub record ExtractionPipeline (F : Type 0) : Type 0 where
  pub namespace : Bytes
  pub schema : Option (ExtractionSchema F)
  pub prefix : Bytes

pub data ExtractionError : Type 0 where
  extractor_failed marshal_failed store_failed : ExtractionError

-- encoding/json, the type assertions on an interface{}, and SHA-256 in hexadecimal digits.
pub record ExtractionEnv (F V : Type 0) : Type 0 where
  pub reals : Reals F
  pub as_text : V → Option Bytes
  pub as_real : V → Option F
  pub as_list : V → Option (List V)
  pub as_object : V → Option (Fields V)
  pub sha256_hex : Bytes → Bytes
  pub marshal_entity : Entity F V → Option Bytes
  pub marshal_relation : Relation F V → Option Bytes
  pub marshal_assertion : Assertion F → Option Bytes
  pub unmarshal_entity : Bytes → Option (Entity F V)
  pub unmarshal_relation : Bytes → Option (Relation F V)
  pub unmarshal_assertion : Bytes → Option (Assertion F)

unfoldable pub new_extraction_pipeline :
    {F : Type 0} → Bytes → Option (ExtractionSchema F) → ExtractionPipeline F
new_extraction_pipeline namespace schema = record {
  namespace = namespace;
  schema = schema;
  prefix = codes "memory:" ++ (namespace ++ codes ":");
}

module _ {F : Type 0} (p : ExtractionPipeline F) where
  unfoldable pub entity_key : Bytes → Bytes
  entity_key id = p.prefix ++ (codes "entity:" ++ id)

  unfoldable pub relation_key : Bytes → Bytes
  relation_key id = p.prefix ++ (codes "relation:" ++ id)

  unfoldable pub assertion_key : Bytes → Bytes
  assertion_key id = p.prefix ++ (codes "assertion:" ++ id)

-- The loop that looks for the type.
unfoldable pub is_listed : Bytes → List Bytes → Bool
is_listed t [] = false
is_listed t (u ∷ types) = let rest = is_listed t types in if bytes_eq u t then true else rest

-- No types in the schema allow every type.
unfoldable pub is_known_type : List Bytes → Bytes → Bool
is_known_type [] t = true
is_known_type (u ∷ types) t = is_listed t (u ∷ types)

-- text[:min(100, len(text))]
abbrev pub excerpt : Bytes → Bytes
excerpt text = take 100 text

module _ {F V : Type 0} (env : ExtractionEnv F V) where
  unfoldable pub is_confident : ExtractionSchema F → F → Bool
  is_confident schema confidence = not (
      env.reals.above schema.min_confidence env.reals.zero_real
      && env.reals.above schema.min_confidence confidence)

  unfoldable pub validate_entity : Option (ExtractionSchema F) → Entity F V → Bool
  validate_entity none entity = true
  validate_entity (some schema) entity =
      is_known_type schema.entity_types entity.entity_type && is_confident schema entity.confidence

  unfoldable pub validate_relation : Option (ExtractionSchema F) → Relation F V → Bool
  validate_relation none relation = true
  validate_relation (some schema) relation =
      is_known_type schema.relation_types relation.relation_type
      && is_confident schema relation.confidence

  unfoldable pub validate_assertion : Option (ExtractionSchema F) → Assertion F → Bool
  validate_assertion none assertion = true
  validate_assertion (some schema) assertion = is_confident schema assertion.confidence

  unfoldable pub generate_entity_id : Bytes → Bytes → Bytes
  generate_entity_id name entity_type =
      take 16 (env.sha256_hex (name ++ (codes ":" ++ entity_type)))

  unfoldable pub generate_relation_id : Bytes → Bytes → Bytes → Bytes
  generate_relation_id from relation_type to =
      take 16 (env.sha256_hex (from ++ (codes ":" ++ (relation_type ++ (codes ":" ++ to)))))

  unfoldable pub generate_assertion_id : Bytes → Bytes → Bytes → Bytes
  generate_assertion_id subject predicate object =
      take 16 (env.sha256_hex (subject ++ (codes ":" ++ (predicate ++ (codes ":" ++ object)))))

  -- m[key] of a map that may be nil
  abbrev pub value_of : Bytes → Fields V → Option V
  value_of key none = none
  value_of key (some fields) = lookup key fields

  abbrev pub text_or_empty : Option V → Bytes
  text_or_empty none = []
  text_or_empty (some v) = elim (env.as_text v) [ none ↦ [] | some t ↦ t ]

  abbrev pub real_or_zero : Option V → F
  real_or_zero none = env.reals.zero_real
  real_or_zero (some v) = elim (env.as_real v) [ none ↦ env.reals.zero_real | some x ↦ x ]

  abbrev pub list_or_empty : Option V → List V
  list_or_empty none = []
  list_or_empty (some v) = elim (env.as_list v) [ none ↦ [] | some l ↦ l ]

  abbrev pub object_or_nil : Option V → Fields V
  object_or_nil none = none
  object_or_nil (some v) = elim (env.as_object v) [ none ↦ none | some fields ↦ fields ]

  -- The confidence that is given, or 1 where it is missing or 0.
  unfoldable pub confidence_of : Fields V → F
  confidence_of fields =
      let confidence = real_or_zero (value_of (codes "confidence") fields) in
      if env.reals.equal confidence env.reals.zero_real then env.reals.one else confidence

  unfoldable pub entity_of : Bytes → ℤ → Fields V → Entity F V
  entity_of text timestamp fields =
      let name = text_or_empty (value_of (codes "name") fields) in
      let entity_type = text_or_empty (value_of (codes "entity_type") fields) in
      record {
        id = generate_entity_id name entity_type;
        name = name;
        entity_type = entity_type;
        properties = object_or_nil (value_of (codes "properties") fields);
        confidence = confidence_of fields;
        provenance = excerpt text;
        timestamp = timestamp;
      }

  unfoldable pub relation_of : Bytes → ℤ → Fields V → Relation F V
  relation_of text timestamp fields =
      let from_entity = text_or_empty (value_of (codes "from_entity") fields) in
      let relation_type = text_or_empty (value_of (codes "relation_type") fields) in
      let to_entity = text_or_empty (value_of (codes "to_entity") fields) in
      record {
        id = generate_relation_id from_entity relation_type to_entity;
        from_entity = from_entity;
        relation_type = relation_type;
        to_entity = to_entity;
        properties = object_or_nil (value_of (codes "properties") fields);
        confidence = confidence_of fields;
        provenance = excerpt text;
        timestamp = timestamp;
      }

  unfoldable pub assertion_of : Bytes → ℤ → Fields V → Assertion F
  assertion_of text timestamp fields =
      let subject = text_or_empty (value_of (codes "subject") fields) in
      let predicate = text_or_empty (value_of (codes "predicate") fields) in
      let object = text_or_empty (value_of (codes "object") fields) in
      record {
        id = generate_assertion_id subject predicate object;
        subject = subject;
        predicate = predicate;
        object = object;
        confidence = confidence_of fields;
        provenance = excerpt text;
        timestamp = timestamp;
      }

  -- The loop of each kind: what is no object is passed over, and what is not valid is left out.
  unfoldable pub extract_items : {A : Type 0} → (Fields V → A) → (A → Bool) → List V → List A
  extract_items make validate [] = []
  extract_items make validate (v ∷ raw) =
      let rest = extract_items make validate raw in
      elim (env.as_object v) [
        | none ↦ rest
        | some fields ↦ if validate (make fields) then make fields ∷ rest else rest
      ]

  unfoldable pub extraction : Bytes → ℤ → ExtractionPipeline F → Fields V → ExtractionResult F V
  extraction text timestamp p raw = record {
    entities =
        extract_items (entity_of text timestamp) (validate_entity p.schema)
          (list_or_empty (value_of (codes "entities") raw));
    relations =
        extract_items (relation_of text timestamp) (validate_relation p.schema)
          (list_or_empty (value_of (codes "relations") raw));
    assertions =
        extract_items (assertion_of text timestamp) (validate_assertion p.schema)
          (list_or_empty (value_of (codes "assertions") raw));
  }

  abbrev pub extracted :
      Bytes
      → ℤ
      → ExtractionPipeline F
      → Option (Fields V)
      → Result ExtractionError (ExtractionResult F V)
  extracted text timestamp p none = err extractor_failed
  extracted text timestamp p (some raw) = ok (extraction text timestamp p raw)

  unfoldable pub extract :
      Bytes
      → (Bytes → Option (Fields V))
      → ℤ
      → ExtractionPipeline F
      → Result ExtractionError (ExtractionResult F V)
  extract text extractor timestamp p = extracted text timestamp p (extractor text)
