-- ===== src/MemorySystem/Tests/Retrieving.antt =====
-- A retrieval over two documents.
use sochdb_go.Prelude.{ℕ, ◌≤◌, ◌≡◌, refl, In, List, [], ◌∷◌, true, none, some, length}
use sochdb_go.Prelude.Int.{pos}
use sochdb_go.Prelude.Result.{ok}
use sochdb_go.Prelude.Bytes.{codes}
use sochdb_go.Prelude.Bytes.Order.{bytes_eq}
use sochdb_go.Prelude.Maps.{Dict, lookup}
use sochdb_go.MemorySystem.{AllowedSet, namespace_allowed_set, is_allowed}
use sochdb_go.MemorySystem.Memory.{Stored, memory}
use sochdb_go.MemorySystem.Scoring.Sorter.{whole_scoring}
use sochdb_go.MemorySystem.Retrieval.{
  HybridRetriever, RetrievalEnv, doc_prefix, new_hybrid_retriever,
}
use sochdb_go.MemorySystem.Retrieval.Stored.{retrieve}
use sochdb_go.MemorySystem.Retrieval.Isolation.{Permitted, LawfulOrder, retrieve-Permitted}
use sochdb_go.MemorySystem.Tests.{Value, text, number, text_in}

-- A document is stored as its text.
abbrev retrieval : RetrievalEnv ℕ Value
retrieval = record {
  scoring = whole_scoring;
  values = record { as_text = text_in; of_text = text };
  of_real = number;
  marshal_doc = λ d. none;
  unmarshal_doc = λ b. some (some ((codes "text", text b) ∷ []));
  range_given = λ m. m;
  range_docs = λ m. m;
  sort_docs = λ l. l;
}

retrieval-LawfulOrder : LawfulOrder retrieval
retrieval-LawfulOrder = record { In-range = λ e m i. i; In-sort = λ d l i. i }

abbrev retriever : HybridRetriever ℕ
retriever =
    new_hybrid_retriever retrieval
      (record {
        limit = pos 5;
        lexical_weight = 1;
        semantic_weight = 1;
        rrf_constant = pos 60;
        prefilter_ratio = 1;
        use_prefiltering = true;
      })
      1 1 (codes "n") none

abbrev two_documents : Stored
two_documents =
    (codes "retrieval:n:doc:n_1", codes "moon") ∷ (codes "retrieval:n:doc:m_1", codes "sun") ∷ []

abbrev own : AllowedSet Value
own = namespace_allowed_set (codes "n")

abbrev answer : List (Dict Value)
answer =
    ((codes "text", text (codes "moon"))
      ∷ (codes "id", text (codes "n_1"))
      ∷ (codes "_score", number 32)
      ∷ [])
    ∷ []

retrieved : retrieve retrieval memory (codes "moon") own retriever two_documents ≡ ok answer
unfolding bytes_eq sochdb_go.Prelude.Maps.lookup sochdb_go.Prelude.Maps.set_entry
    sochdb_go.MemorySystem.starts_with sochdb_go.MemorySystem.in_namespace
    sochdb_go.MemorySystem.is_allowed sochdb_go.MemorySystem.Memory.behind
    sochdb_go.MemorySystem.Scoring.number_items sochdb_go.MemorySystem.Scoring.fill_missing
    sochdb_go.MemorySystem.Scoring.mark_keys sochdb_go.MemorySystem.Scoring.rank_scores
    sochdb_go.MemorySystem.Scoring.fused_score sochdb_go.MemorySystem.Scoring.fuse
    sochdb_go.MemorySystem.Scoring.reciprocal_rank_fusion
    sochdb_go.MemorySystem.Scoring.Sorter.insert_score
    sochdb_go.MemorySystem.Scoring.Sorter.sort_scores sochdb_go.MemorySystem.Retrieval.doc_prefix
    sochdb_go.MemorySystem.Retrieval.first_results
    sochdb_go.MemorySystem.Retrieval.new_hybrid_retriever
    sochdb_go.MemorySystem.Retrieval.add_document sochdb_go.MemorySystem.Retrieval.read_documents
    sochdb_go.MemorySystem.Retrieval.filter_allowed sochdb_go.MemorySystem.Retrieval.id_of
    sochdb_go.MemorySystem.Retrieval.lexical_scores sochdb_go.MemorySystem.Retrieval.semantic_scores
    sochdb_go.MemorySystem.Retrieval.scored_docs sochdb_go.MemorySystem.Retrieval.with_scores
    sochdb_go.MemorySystem.Retrieval.rank_docs sochdb_go.MemorySystem.Retrieval.if_any
    sochdb_go.MemorySystem.Retrieval.Stored.get_all_documents
    sochdb_go.MemorySystem.Retrieval.Stored.retrieve
retrieved = refl

retrieve-Permitted_example :
    (1 ≤ 5)
    × ((result : Dict Value)
        → In result answer
        → Permitted retrieval own
            (length (doc_prefix retriever))
            (memory.scan (doc_prefix retriever) two_documents).0
            result)
unfolding new_hybrid_retriever
retrieve-Permitted_example =
    retrieve-Permitted retrieval memory (codes "moon") own retriever two_documents 5 answer
      retrieval-LawfulOrder refl retrieved
