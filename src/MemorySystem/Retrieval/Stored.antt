-- ===== src/MemorySystem/Retrieval/Stored.antt =====
-- What the HybridRetriever of memory_retrieval.go reads and writes.
use sochdb_go.Prelude.{List, [], ◌∷◌, ◌++◌, Bool, true, false, Option, none, some, length}
use sochdb_go.Prelude.Result.{Result, ok, err, ◌>>=◌}
use sochdb_go.Prelude.Bytes.{Bytes, codes}
use sochdb_go.Prelude.Maps.{Dict, lookup, set_entry}
use sochdb_go.MemorySystem.{Fields, AllowedSet, AutoDb}
use sochdb_go.MemorySystem.Scoring.{
  Weights, index_documents, bm25_score, cosine_similarity, reciprocal_rank_fusion,
}
use sochdb_go.MemorySystem.Retrieval.{
  HybridRetriever, RetrievalError, RetrievalEnv, marshal_failed, store_failed, document_not_found,
  unmarshal_failed, panicked, id_key, text_of, doc_prefix, text_map, read_documents, filter_allowed,
  or_zero_real, weights_of, if_any,
}

pub record Explanation (F : Type 0) : Type 0 where
  pub lexical_score : F
  pub semantic_score : F
  pub combined_score : F
  pub weights : Weights F

module _ {F V : Type 0} (env : RetrievalEnv F V) {S : Type 0} (db : AutoDb S) where
  abbrev pub after_put : (S → Option RetrievalError × S) → S × Bool → Option RetrievalError × S
  after_put rest (s, true) = rest s
  after_put rest (s, false) = (some store_failed, s)

  abbrev pub put_doc :
      Bytes → Option Bytes → (S → Option RetrievalError × S) → S → Option RetrievalError × S
  put_doc key none rest s = (some marshal_failed, s)
  put_doc key (some value) rest s = after_put rest (db.put key value s)

  unfoldable pub store_documents : Bytes → Dict (Fields V) → S → Option RetrievalError × S
  store_documents prefix [] s = (none, s)
  store_documents prefix ((id, doc) ∷ docs) s =
      put_doc (prefix ++ id) (env.marshal_doc doc) (store_documents prefix docs) s

  abbrev pub indexed :
      HybridRetriever F
      → Dict (Fields V)
      → Option RetrievalError × S
      → Option RetrievalError × HybridRetriever F × S
  indexed hr documents (some e, s) = (some e, hr, s)
  indexed hr documents (none, s) = (
    none,
    record hr {
      bm25 = index_documents env.scoring (text_map env (env.range_given documents) []) hr.bm25;
    },
    s,
  )

  unfoldable pub index :
      Dict (Fields V) → HybridRetriever F → S → Option RetrievalError × HybridRetriever F × S
  index documents hr s =
      indexed hr documents (store_documents (doc_prefix hr) (env.range_given documents) s)

  unfoldable pub get_all_documents : HybridRetriever F → S → Result RetrievalError (Dict (Dict V))
  get_all_documents hr s =
      read_documents env (length (doc_prefix hr)) (db.scan (doc_prefix hr) s).0 []

  unfoldable pub retrieve :
      Bytes → AllowedSet V → HybridRetriever F → S → Result RetrievalError (List (Dict V))
  retrieve query allowed hr s = do
    documents ← get_all_documents hr s
    if_any env query hr (filter_allowed env allowed (env.range_docs documents))

  abbrev pub given_id : Bytes → Option (Fields V) → Result RetrievalError (Dict V)
  given_id doc_id none = err unmarshal_failed
  given_id doc_id (some none) = err panicked
  given_id doc_id (some (some doc)) = ok (set_entry id_key (env.values.of_text doc_id) doc)

  -- A missing key gives no error and no bytes.
  abbrev pub read_document : Bytes → Option (Option Bytes) → Result RetrievalError (Dict V)
  read_document doc_id none = err document_not_found
  read_document doc_id (some none) = given_id doc_id (env.unmarshal_doc [])
  read_document doc_id (some (some value)) = given_id doc_id (env.unmarshal_doc value)

  unfoldable pub get_document : Bytes → HybridRetriever F → S → Result RetrievalError (Dict V)
  get_document doc_id hr s = read_document doc_id (db.get (doc_prefix hr ++ doc_id) s)

  abbrev pub semantic_score : Bytes → Option Bytes → F
  semantic_score query none = env.scoring.reals.zero_real
  semantic_score query (some text) = cosine_similarity env.scoring query text

  -- What Explain gives; "weights" are those of the configuration. Where the document is not found or
  -- not read, the code gives a map with the error's text.
  unfoldable pub explanation : Bytes → Bytes → HybridRetriever F → Dict V → Explanation F
  explanation query doc_id hr doc =
      let lexical : F = bm25_score env.scoring hr.bm25 query doc_id in
      let semantic : F = semantic_score query (text_of env.values (lookup (codes "text") doc)) in
      let combined =
        reciprocal_rank_fusion env.scoring (weights_of env hr.config) hr.config.rrf_constant
          ((doc_id, lexical) ∷ []) ((doc_id, semantic) ∷ []) in
      record {
        lexical_score = lexical;
        semantic_score = semantic;
        combined_score = or_zero_real env (lookup doc_id combined);
        weights = weights_of env hr.config;
      }

  unfoldable pub explain :
      Bytes → Bytes → HybridRetriever F → S → Result RetrievalError (Explanation F)
  explain query doc_id hr s =
      get_document doc_id hr s >>= λ doc. ok (explanation query doc_id hr doc)
