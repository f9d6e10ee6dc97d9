-- ===== src/MemorySystem/Extraction/Stored.antt =====
-- Commit, ExtractAndCommit and the reads of memory_extraction.go.
use sochdb_go.Prelude.{List, [], ◌∷◌, Bool, true, false, Option, none, some}
use sochdb_go.Prelude.Int.{ℤ}
use sochdb_go.Prelude.Result.{Result, ok, err}
use sochdb_go.Prelude.Bytes.{Bytes}
use sochdb_go.MemorySystem.{
  Fields, Entity, Relation, Assertion, ExtractionResult, AutoDb, read_values,
}
use sochdb_go.MemorySystem.Extraction.{
  ExtractionPipeline, ExtractionError, ExtractionEnv, marshal_failed, store_failed, entity_key,
  relation_key, assertion_key, extract,
}

module _ {F V : Type 0} (env : ExtractionEnv F V) {S : Type 0} (db : AutoDb S) where
  abbrev pub after_put : (S → Option ExtractionError × S) → S × Bool → Option ExtractionError × S
  after_put rest (s, true) = rest s
  after_put rest (s, false) = (some store_failed, s)

  abbrev pub put_item :
      Bytes → Option Bytes → (S → Option ExtractionError × S) → S → Option ExtractionError × S
  put_item key none rest s = (some marshal_failed, s)
  put_item key (some value) rest s = after_put rest (db.put key value s)

  -- The loop of Commit for each kind.
  unfoldable pub store_items :
      {A : Type 0} → (A → Bytes) → (A → Option Bytes) → List A → S → Option ExtractionError × S
  store_items key marshal [] s = (none, s)
  store_items key marshal (x ∷ items) s =
      put_item (key x) (marshal x) (store_items key marshal items) s

  abbrev pub and_then :
      Option ExtractionError × S → (S → Option ExtractionError × S) → Option ExtractionError × S
  and_then (none, s) rest = rest s
  and_then (some e, s) rest = (some e, s)

  unfoldable pub commit :
      ExtractionResult F V → ExtractionPipeline F → S → Option ExtractionError × S
  commit result p s =
      and_then
        (store_items (λ (e : Entity F V). entity_key p e.id) env.marshal_entity result.entities s)
        (λ s.
          and_then
            (store_items (λ (r : Relation F V). relation_key p r.id) env.marshal_relation
              result.relations s)
            (λ s.
              store_items (λ (a : Assertion F). assertion_key p a.id) env.marshal_assertion
                result.assertions s))

  abbrev pub committed :
      ExtractionResult F V
      → Option ExtractionError × S
      → Result ExtractionError (ExtractionResult F V) × S
  committed result (none, s) = (ok result, s)
  committed result (some e, s) = (err e, s)

  abbrev pub commit_extracted :
      ExtractionPipeline F
      → Result ExtractionError (ExtractionResult F V)
      → S
      → Result ExtractionError (ExtractionResult F V) × S
  commit_extracted p (err e) s = (err e, s)
  commit_extracted p (ok result) s = committed result (commit result p s)

  unfoldable pub extract_and_commit :
      Bytes
      → (Bytes → Option (Fields V))
      → ℤ
      → ExtractionPipeline F
      → S
      → Result ExtractionError (ExtractionResult F V) × S
  extract_and_commit text extractor timestamp p =
      commit_extracted p (extract env text extractor timestamp p)

  unfoldable pub get_entities : ExtractionPipeline F → S → List (Entity F V)
  get_entities p s = read_values env.unmarshal_entity (db.scan (entity_key p []) s).0

  unfoldable pub get_relations : ExtractionPipeline F → S → List (Relation F V)
  get_relations p s = read_values env.unmarshal_relation (db.scan (relation_key p []) s).0

  unfoldable pub get_assertions : ExtractionPipeline F → S → List (Assertion F)
  get_assertions p s = read_values env.unmarshal_assertion (db.scan (assertion_key p []) s).0
