-- ===== src/MemorySystem/Tests/Extracting.antt =====
-- An extraction of one entity of two.
use sochdb_go.Prelude.{
  ℕ, ◌≡◌, ◌↔◌, inl, inr, refl, sym, ap, ◌∙◌, In, [], ◌∷◌, ◌++◌, false, Option, none, some,
}
use sochdb_go.Prelude.Int.{pos}
use sochdb_go.Prelude.Result.{ok}
use sochdb_go.Prelude.Bytes.{Bytes, codes}
use sochdb_go.Prelude.Bytes.Order.{bytes_eq}
use sochdb_go.Prelude.Maps.{lookup}
use sochdb_go.MemorySystem.{Fields, Entity, Relation, Assertion, ExtractionResult, ExtractionSchema}
use sochdb_go.MemorySystem.Memory.{Stored, memory, memory-LawfulDb}
use sochdb_go.MemorySystem.Scoring.Sorter.{whole_reals}
use sochdb_go.MemorySystem.Extraction.{
  ExtractionPipeline, ExtractionEnv, new_extraction_pipeline, entity_key, relation_key,
  assertion_key, entity_of, relation_of, assertion_of, extraction, extract,
}
use sochdb_go.MemorySystem.Extraction.Stored.{commit, get_entities, get_relations, get_assertions}
use sochdb_go.MemorySystem.Extraction.Valid.{Fits, FitsConfidence, From, extract_iff}
use sochdb_go.MemorySystem.Extraction.Commits.{commit_found}
use sochdb_go.MemorySystem.Tests.{Value, objects, text_in, number_in, list_in, object_in}

abbrev person : Bytes → ℕ → Entity ℕ Value
person name confidence = record {
  id = name ++ codes ":person";
  name = name;
  entity_type = codes "person";
  properties = none;
  confidence = confidence;
  provenance = codes "Ada";
  timestamp = pos 9;
}

-- An entity is stored as its name.
abbrev extraction_env : ExtractionEnv ℕ Value
extraction_env = record {
  reals = whole_reals;
  as_text = text_in;
  as_real = number_in;
  as_list = list_in;
  as_object = object_in;
  sha256_hex = λ b. b;
  marshal_entity = λ e. some e.name;
  marshal_relation = λ r. none;
  marshal_assertion = λ a. none;
  unmarshal_entity = λ b. some (person b 5);
  unmarshal_relation = λ b. none;
  unmarshal_assertion = λ b. none;
}

abbrev pipeline : ExtractionPipeline ℕ
pipeline = new_extraction_pipeline (codes "n") (
    some (record {
      entity_types = codes "person" ∷ [];
      relation_types = [];
      min_confidence = 3;
      require_provenance = false;
    }))

-- Ada is sure enough, Bob is not.
abbrev raw : Fields Value
raw = some ((codes "entities", objects ((codes "Ada", 5) ∷ (codes "Bob", 1) ∷ [])) ∷ [])

abbrev extractor : Bytes → Option (Fields Value)
extractor input = some raw

extract_iff_example :
    (result : ExtractionResult ℕ Value) × (extract extraction_env
        (codes "Ada")
        extractor
        (pos 9)
        pipeline
      ≡ ok result)
    × ((e : Entity ℕ Value)
        → In e result.entities
          ↔ From extraction_env
              (codes "entities")
              raw
              (entity_of extraction_env (codes "Ada") (pos 9))
              (λ (e : Entity ℕ Value).
                Fits extraction_env
                  (λ (s : ExtractionSchema ℕ). s.entity_types)
                  pipeline.schema
                  e.entity_type
                  e.confidence)
              e)
    × ((r : Relation ℕ Value)
        → In r result.relations
          ↔ From extraction_env
              (codes "relations")
              raw
              (relation_of extraction_env (codes "Ada") (pos 9))
              (λ (r : Relation ℕ Value).
                Fits extraction_env
                  (λ (s : ExtractionSchema ℕ). s.relation_types)
                  pipeline.schema
                  r.relation_type
                  r.confidence)
              r)
    × ((a : Assertion ℕ)
        → In a result.assertions
          ↔ From extraction_env
              (codes "assertions")
              raw
              (assertion_of extraction_env (codes "Ada") (pos 9))
              (λ (a : Assertion ℕ). FitsConfidence extraction_env pipeline.schema a.confidence)
              a)
extract_iff_example = extract_iff extraction_env (codes "Ada") extractor (pos 9) pipeline raw refl

abbrev ada : ExtractionResult ℕ Value
ada = record { entities = person (codes "Ada") 5 ∷ []; relations = []; assertions = [] }

ada_extracted : extract extraction_env (codes "Ada") extractor (pos 9) pipeline ≡ ok ada
unfolding bytes_eq sochdb_go.Prelude.Maps.lookup
    sochdb_go.MemorySystem.Extraction.new_extraction_pipeline
    sochdb_go.MemorySystem.Extraction.is_listed sochdb_go.MemorySystem.Extraction.is_known_type
    sochdb_go.MemorySystem.Extraction.is_confident sochdb_go.MemorySystem.Extraction.validate_entity
    sochdb_go.MemorySystem.Extraction.generate_entity_id
    sochdb_go.MemorySystem.Extraction.confidence_of sochdb_go.MemorySystem.Extraction.entity_of
    sochdb_go.MemorySystem.Extraction.extract_items sochdb_go.MemorySystem.Extraction.extraction
    sochdb_go.MemorySystem.Extraction.extract
ada_extracted = refl

abbrev with_ada : Stored
with_ada = (codes "memory:n:entity:Ada:person", codes "Ada") ∷ []

ada_stored : commit extraction_env memory ada pipeline [] ≡ (none, with_ada)
unfolding sochdb_go.Prelude.Maps.set_entry sochdb_go.MemorySystem.Extraction.new_extraction_pipeline
    sochdb_go.MemorySystem.Extraction.entity_key
    sochdb_go.MemorySystem.Extraction.Stored.store_items
    sochdb_go.MemorySystem.Extraction.Stored.commit
ada_stored = refl

ada_read :
    (e : Entity ℕ Value)
    → In e ada.entities
    → (b : Bytes) → extraction_env.marshal_entity e ≡ some b
    → extraction_env.unmarshal_entity b ≡ some e
ada_read e (inl same) b made =
    let named : b ≡ codes "Ada" =
      let here : e.name ≡ codes "Ada" = ap (λ (x : Entity ℕ Value). x.name) same in cc in
    ap (λ name. some (person name 5)) named ∙ ap some (sym same)
ada_read e (inr never) b made = absurd never

commit_found_example :
    ((e : Entity ℕ Value)
      → In e ada.entities
      → (e' : Entity ℕ Value) × In e' ada.entities
        × (entity_key pipeline e'.id ≡ entity_key pipeline e.id)
        × In e' (get_entities extraction_env memory pipeline with_ada))
    × ((r : Relation ℕ Value)
        → In r ada.relations
        → (r' : Relation ℕ Value) × In r' ada.relations
          × (relation_key pipeline r'.id ≡ relation_key pipeline r.id)
          × In r' (get_relations extraction_env memory pipeline with_ada))
    × ((a : Assertion ℕ)
        → In a ada.assertions
        → (a' : Assertion ℕ) × In a' ada.assertions
          × (assertion_key pipeline a'.id ≡ assertion_key pipeline a.id)
          × In a' (get_assertions extraction_env memory pipeline with_ada))
commit_found_example =
    commit_found extraction_env memory memory-LawfulDb pipeline ada [] with_ada ada_read
      (λ r i. absurd i) (λ a i. absurd i) ada_stored refl refl refl
