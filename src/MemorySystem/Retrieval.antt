-- ===== src/MemorySystem/Retrieval.antt =====
-- HybridRetriever of memory_retrieval.go.
pub mod Stored
pub mod Isolation
use sochdb_go.Prelude.{
  ℕ, zero, List, [], ◌∷◌, ◌++◌, Option, none, some, if◌then◌else◌, length, take, drop,
}
use sochdb_go.Prelude.Int.{ℤ, pos, negsuc}
use sochdb_go.Prelude.Result.{Result, ok, err, ◌>>=◌}
use sochdb_go.Prelude.Bytes.{Bytes, codes}
use sochdb_go.Prelude.Maps.{Dict, lookup, set_entry}
use sochdb_go.MemorySystem.{Fields, RetrievalConfig, AllowedSet, is_allowed, Values}
use sochdb_go.MemorySystem.Scoring.{
  Bm25Scorer, ScoreEnv, Weights, bm25_score, cosine_similarity, reciprocal_rank_fusion,
  new_bm25_scorer,
}

pub record HybridRetriever (F : Type 0) : Type 0 where
  pub namespace : Bytes
  pub config : RetrievalConfig F
  pub prefix : Bytes
  pub bm25 : Bm25Scorer F

-- `panicked` is Go's run-time panic: a write to a nil map, a failed type assertion, or a negative
-- length.
pub data RetrievalError : Type 0 where
  marshal_failed store_failed document_not_found unmarshal_failed panicked : RetrievalError

-- A document that was found, and its score.
pub record ScoredDoc (F V : Type 0) : Type 0 where
  pub doc : Dict V
  pub score : F

-- encoding/json on documents, the values, and how `range` and sort.Slice order documents.
pub record RetrievalEnv (F V : Type 0) : Type 0 where
  pub scoring : ScoreEnv F
  pub values : Values V
  pub of_real : F → V
  pub marshal_doc : Fields V → Option Bytes
  pub unmarshal_doc : Bytes → Option (Fields V)
  pub range_given : Dict (Fields V) → Dict (Fields V)
  pub range_docs : Dict (Dict V) → Dict (Dict V)
  pub sort_docs : List (ScoredDoc F V) → List (ScoredDoc F V)

abbrev pub id_key : Bytes
id_key = codes "id"

-- v.(string), behind a lookup
abbrev pub text_of : {V : Type 0} → Values V → Option V → Option Bytes
text_of values none = none
text_of values (some v) = values.as_text v

-- doc[key] of a map that may be nil
abbrev pub field : {V : Type 0} → Bytes → Fields V → Option V
field key none = none
field key (some doc) = lookup key doc

unfoldable pub doc_prefix : {F : Type 0} → HybridRetriever F → Bytes
doc_prefix hr = hr.prefix ++ codes "doc:"

-- hr.config.Limit, at most the number of documents found; make panics below zero.
unfoldable pub first_results : {A : Type 0} → ℤ → List A → Result RetrievalError (List A)
first_results (pos n) l = ok (take n l)
first_results (negsuc n) l = err panicked

abbrev pub or_default :
    {F : Type 0} → RetrievalConfig F → Option (RetrievalConfig F) → RetrievalConfig F
or_default standard none = standard
or_default standard (some config) = config

module _ {F V : Type 0} (env : RetrievalEnv F V) where
  -- `standard` has the numbers of the default configuration, `k1` and `b` are 1.5 and 0.75.
  unfoldable pub new_hybrid_retriever :
      RetrievalConfig F → F → F → Bytes → Option (RetrievalConfig F) → HybridRetriever F
  new_hybrid_retriever standard k1 b namespace config = record {
    namespace = namespace;
    config = or_default standard config;
    prefix = codes "retrieval:" ++ (namespace ++ codes ":");
    bm25 = new_bm25_scorer env.scoring k1 b;
  }

  abbrev pub add_text : Bytes → Option Bytes → Dict Bytes → Dict Bytes
  add_text id none texts = texts
  add_text id (some text) texts = set_entry id text texts

  -- The loop that collects doc["text"].
  unfoldable pub text_map : Dict (Fields V) → Dict Bytes → Dict Bytes
  text_map [] texts = texts
  text_map ((id, doc) ∷ docs) texts =
      text_map docs (add_text id (text_of env.values (field (codes "text") doc)) texts)

  -- doc["id"] = id, and documents[id] = doc; a nil map panics.
  unfoldable pub add_document :
      Bytes → Option (Fields V) → Dict (Dict V) → Result RetrievalError (Dict (Dict V))
  add_document id none documents = ok documents
  add_document id (some none) documents = err panicked
  add_document id (some (some doc)) documents =
      ok (set_entry id (set_entry id_key (env.values.of_text id) doc) documents)

  -- The loop of getAllDocuments; `size` is the length of the prefix.
  unfoldable pub read_documents :
      ℕ → List (Bytes × Bytes) → Dict (Dict V) → Result RetrievalError (Dict (Dict V))
  read_documents size [] documents = ok documents
  read_documents size ((key, value) ∷ entries) documents =
      add_document (drop size key) (env.unmarshal_doc value) documents
      >>= read_documents size entries

  unfoldable pub filter_allowed : AllowedSet V → Dict (Dict V) → List (Dict V)
  filter_allowed allowed [] = []
  filter_allowed allowed ((id, doc) ∷ documents) =
      let rest = filter_allowed allowed documents in
      if is_allowed allowed id (some doc) then doc ∷ rest else rest

  -- doc["id"].(string)
  unfoldable pub id_of : Dict V → Result RetrievalError Bytes
  id_of doc = elim (text_of env.values (lookup id_key doc)) [
    | none ↦ err panicked
    | some id ↦ ok id
  ]

  unfoldable pub lexical_scores :
      Bm25Scorer F → Bytes → List (Dict V) → Dict F → Result RetrievalError (Dict F)
  lexical_scores bm query [] scores = ok scores
  lexical_scores bm query (doc ∷ docs) scores = id_of doc >>= λ id.
      lexical_scores bm query docs (set_entry id (bm25_score env.scoring bm query id) scores)

  abbrev pub add_semantic : Bytes → Bytes → Option Bytes → Dict F → Dict F
  add_semantic query id none scores = scores
  add_semantic query id (some text) scores =
      set_entry id (cosine_similarity env.scoring query text) scores

  unfoldable pub semantic_scores : Bytes → List (Dict V) → Dict F → Result RetrievalError (Dict F)
  semantic_scores query [] scores = ok scores
  semantic_scores query (doc ∷ docs) scores = id_of doc >>= λ id.
      semantic_scores query docs
        (add_semantic query id (text_of env.values (lookup (codes "text") doc)) scores)

  abbrev pub or_zero_real : Option F → F
  or_zero_real none = env.scoring.reals.zero_real
  or_zero_real (some x) = x

  unfoldable pub scored_docs : Dict F → List (Dict V) → Result RetrievalError (List (ScoredDoc F V))
  scored_docs combined [] = ok []
  scored_docs combined (doc ∷ docs) = id_of doc >>= λ id. scored_docs combined docs >>= λ rest.
      ok (record { doc = doc; score = or_zero_real (lookup id combined) } ∷ rest)

  -- results[i]["_score"] = score
  unfoldable pub with_scores : List (ScoredDoc F V) → List (Dict V)
  with_scores [] = []
  with_scores (found ∷ rest) =
      set_entry (codes "_score") (env.of_real found.score) found.doc ∷ with_scores rest

  abbrev pub weights_of : RetrievalConfig F → Weights F
  weights_of config = record { lexical = config.lexical_weight; semantic = config.semantic_weight }

  -- Retrieve behind the filter, which found something.
  unfoldable pub rank_docs :
      Bytes → HybridRetriever F → List (Dict V) → Result RetrievalError (List (Dict V))
  rank_docs query hr filtered = do
    lexical ← lexical_scores hr.bm25 query filtered []
    semantic ← semantic_scores query filtered []
    scored ←
        scored_docs
          (reciprocal_rank_fusion env.scoring (weights_of hr.config) hr.config.rrf_constant lexical
            semantic)
          filtered
    results ← first_results hr.config.limit (env.sort_docs scored)
    ok (with_scores results)

  unfoldable pub if_any :
      Bytes → HybridRetriever F → List (Dict V) → Result RetrievalError (List (Dict V))
  if_any query hr [] = ok []
  if_any query hr (doc ∷ docs) = rank_docs query hr (doc ∷ docs)
