-- ===== src/MemorySystem/Tests.antt =====
-- Runs of the memory system on small inputs, over a database in memory and whole numbers for floats.
mod Retrieving
mod Consolidating
mod Extracting
use sochdb_go.Prelude.{
  ℕ, ◌≤◌, ◌<◌, ◌+◌, ◌≡◌, ◌↔◌, ◌⊎◌, refl, In, List, [], ◌∷◌, ◌++◌, map, true, Option, none, some,
}
use mathlib.Core.List.Perm
use sochdb_go.Prelude.Bytes.{Bytes, codes}
use sochdb_go.Prelude.Bytes.Order.{bytes_eq}
use sochdb_go.Prelude.Maps.{Dict, lookup, or_zero, DistinctKeys}
use sochdb_go.MemorySystem.{Fields, namespace_allowed_set, new_ids_allowed_set, is_allowed}
use sochdb_go.MemorySystem.Allowed.{Begins, is_allowed-namespace_iff, is_allowed-ids_iff}
use sochdb_go.MemorySystem.Memory.{memory}
use sochdb_go.MemorySystem.Scoring.{Bm25Scorer, new_bm25_scorer, index_documents}
use sochdb_go.MemorySystem.Scoring.Counting.{documents_with, index_documents_counts}
use sochdb_go.MemorySystem.Scoring.Ranks.{rank_of, rank_scores_order}
use sochdb_go.MemorySystem.Scoring.Sorter.{whole_reals, whole_scoring, whole_scoring-LawfulScores}
use sochdb_go.MemorySystem.Consolidation.{holds}

is_allowed-namespace_iff_example :
    (is_allowed {V = ℕ} (namespace_allowed_set (codes "ab")) (codes "ab_c:1") none ≡ true) ↔ (
      Begins (codes "ab" ++ codes "_") (codes "ab_c:1")
      ⊎ Begins (codes "ab" ++ codes ":") (codes "ab_c:1"))
is_allowed-namespace_iff_example = is_allowed-namespace_iff (codes "ab") (codes "ab_c:1") none

is_allowed-ids_iff_test :
    (is_allowed {V = ℕ} (new_ids_allowed_set (codes "x" ∷ codes "y" ∷ [])) (codes "y") none ≡ true)
    ↔ In (codes "y") (codes "x" ∷ codes "y" ∷ [])
is_allowed-ids_iff_test = is_allowed-ids_iff (codes "x" ∷ codes "y" ∷ []) (codes "y") none

abbrev two_scores : Dict ℕ
two_scores = (codes "a", 3) ∷ (codes "b", 7) ∷ []

two_scores-DistinctKeys : DistinctKeys two_scores
unfolding lookup bytes_eq
two_scores-DistinctKeys = (refl, (refl, tt))

rank_scores_order_example :
    ((id : Bytes)
      → lookup id two_scores ≡ none
      → rank_of whole_scoring whole_scoring-LawfulScores two_scores two_scores-DistinctKeys id ≡ 0)
    × ((id : Bytes) (x : ℕ)
        → In (id, x) two_scores
        → (1
            ≤ rank_of whole_scoring whole_scoring-LawfulScores two_scores two_scores-DistinctKeys
                id)
          × (rank_of whole_scoring whole_scoring-LawfulScores two_scores two_scores-DistinctKeys id
              ≤ 2))
    × ((a b : Bytes) (x y : ℕ)
        → In (a, x) two_scores
        → In (b, y) two_scores
        → whole_reals.above x y ≡ true
        → rank_of whole_scoring whole_scoring-LawfulScores two_scores two_scores-DistinctKeys a
          < rank_of whole_scoring whole_scoring-LawfulScores two_scores two_scores-DistinctKeys b)
rank_scores_order_example =
    rank_scores_order whole_scoring whole_scoring-LawfulScores two_scores two_scores-DistinctKeys

abbrev two_texts : Dict Bytes
two_texts = (codes "a", codes "moon.") ∷ (codes "b", codes "moon") ∷ []

abbrev new_scorer : Bm25Scorer ℕ
new_scorer = new_bm25_scorer whole_scoring 1 1

index_documents_counts_example :
    (or_zero
        (lookup (codes "moon") (index_documents whole_scoring two_texts new_scorer).term_doc_freq)
      ≡ or_zero (lookup (codes "moon") new_scorer.term_doc_freq)
        + documents_with whole_scoring (codes "moon") two_texts)
    × ((index_documents whole_scoring two_texts new_scorer).document_count ≡ 2)
index_documents_counts_example =
    index_documents_counts whole_scoring two_texts new_scorer (codes "moon") (Perm.refl two_texts)

both_moons : documents_with whole_scoring (codes "moon") two_texts ≡ 2
unfolding sochdb_go.MemorySystem.Scoring.tokenize sochdb_go.MemorySystem.Scoring.clean_terms
    sochdb_go.MemorySystem.Scoring.trim sochdb_go.MemorySystem.Scoring.drop_trailing
    sochdb_go.MemorySystem.Scoring.drop_punctuation sochdb_go.MemorySystem.Scoring.punctuation
    bytes_eq
both_moons = refl

-- What an interface{} holds here; an object is given by its name and its confidence.
pub data Value : Type 0 where
  text : Bytes → Value
  number : ℕ → Value
  object : Bytes → ℕ → Value
  objects : List (Bytes × ℕ) → Value

abbrev pub text_in : Value → Option Bytes
text_in (text t) = some t
text_in (number n) = none
text_in (object name n) = none
text_in (objects l) = none

abbrev pub number_in : Value → Option ℕ
number_in (text t) = none
number_in (number n) = some n
number_in (object name n) = none
number_in (objects l) = none

abbrev pub list_in : Value → Option (List Value)
list_in (text t) = none
list_in (number n) = none
list_in (object name n) = none
list_in (objects l) = some (map (λ (p : Bytes × ℕ). object p.0 p.1) l)

abbrev pub object_in : Value → Option (Fields Value)
object_in (text t) = none
object_in (number n) = none
object_in (object name n) = some (
    some (
      (codes "name", text name)
      ∷ (codes "entity_type", text (codes "person"))
      ∷ (codes "confidence", number n)
      ∷ []))
object_in (objects l) = none
