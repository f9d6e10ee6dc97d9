-- ===== src/Namespace/Search.antt =====
-- Collection.Search and Collection.InsertMany.
use sochdb_go.Prelude.{
  ℕ, zero, suc, List, [], ◌∷◌, Bool, true, false, Option, none, some, if◌then◌else◌, length, take,
  drop,
}
use sochdb_go.Prelude.Int.{ℤ, pos, negsuc}
use sochdb_go.Prelude.Result.{Result, ok, err}
use sochdb_go.Prelude.Bytes.{Bytes}
use sochdb_go.Store.{Db}
use sochdb_go.Namespace.{
  Metadata, SearchRequest, SearchResult, VectorData, Collection, CollectionError, database_failed,
  panicked, NamespaceJson, vector_key_prefix,
}
use sochdb_go.Namespace.Vectors.{passes, Floats, compute_cosine_similarity, insert}

-- What Search uses and the repository does not implement: json.Unmarshal, fmt.Sprintf("%v"), the
-- floats, and sort.Slice by falling score.
pub record SearchEnv (F D V Blob : Type 0) : Type 0 where
  pub floats : Floats F D
  pub printed : V → Bytes
  pub unmarshal_vector : Blob → Option (VectorData F V)
  pub sort_slice : List (SearchResult F V) → List (SearchResult F V)

-- results[:k] where there are more than k.
unfoldable pub limit : {A : Type 0} → ℤ → List A → Result CollectionError (List A)
limit (pos k) results = ok (take k results)
limit (negsuc k) results = err panicked

-- `results = append(results, result)`, unless the entry is skipped.
abbrev pub add_found : {A : Type 0} → Option A → List A → List A
add_found none results = results
add_found (some result) results = result ∷ results

module _ {F D V Blob : Type 0} (env : SearchEnv F D V Blob) where
  unfoldable pub result_of : SearchRequest F V → Bytes → VectorData F V → SearchResult F V
  result_of request id stored = record {
    id = id;
    score = compute_cosine_similarity env.floats request.query_vector stored.vector;
    vector = if request.include_metadata then stored.vector else [];
    metadata = if request.include_metadata then stored.metadata else none;
  }

  -- The body of the loop: the result of one entry, unless a `continue` skips it. `size` is the
  -- length of the key prefix. A key of the scan has the prefix, so `drop size key` is
  -- `keyStr[len(prefix):]`.
  unfoldable pub candidate : SearchRequest F V → ℕ → Bytes × Blob → Option (SearchResult F V)
  candidate request size (key, value) = elim (env.unmarshal_vector value) [
    | none ↦ none
    | some stored ↦
        if passes env.printed stored.metadata request.filter
        then some (result_of request (drop size key) stored)
        else none
  ]

  unfoldable pub candidates : SearchRequest F V → ℕ → List (Bytes × Blob) → List (SearchResult F V)
  candidates request size [] = []
  candidates request size (entry ∷ entries) =
      add_found (candidate request size entry) (candidates request size entries)

  unfoldable pub scan_results :
      Option (List (Bytes × Blob) × Bool)
      → SearchRequest F V
      → ℕ
      → Result CollectionError (List (SearchResult F V))
  scan_results none request size = ok []
  scan_results (some (entries, true)) request size = ok (candidates request size entries)
  scan_results (some (entries, false)) request size = err database_failed

  -- The sort, and at most K results.
  unfoldable pub rank :
      ℤ
      → Result CollectionError (List (SearchResult F V))
      → Result CollectionError (List (SearchResult F V))
  rank k (err e) = err e
  rank k (ok results) = limit k (env.sort_slice results)

  unfoldable pub search :
      {S : Type 0}
      → Db S Blob
      → SearchRequest F V
      → Collection V
      → S
      → Result CollectionError (List (SearchResult F V))
  search db request c s = rank request.k (
      scan_results
        (elim db.scan_prefix [
          | none ↦ none
          | some scan_prefix ↦ some (scan_prefix (vector_key_prefix c.namespace c.name) s)
        ])
        request (length (vector_key_prefix c.namespace c.name)))

-- The i-th of a list that may be nil or too short, and what Go has in its place.
unfoldable pub nth_or : {A : Type 0} → A → ℕ → List A → A
nth_or d i [] = d
nth_or d zero (a ∷ as') = a
nth_or d (suc i) (a ∷ as') = nth_or d i as'

-- The first error, with the ids up to it.
abbrev pub add_id :
    {S : Type 0}
    → Bytes
    → (Option CollectionError × List Bytes × S)
    → Option CollectionError × List Bytes × S
add_id id (e, ids, s) = (e, id ∷ ids, s)

module _ {S F V Blob : Type 0} (db : Db S Blob) (json : NamespaceJson F V Blob) where
  -- What follows the insertion of one vector; `rest` inserts the others.
  unfoldable pub insert_rest :
      (S → Option CollectionError × List Bytes × S)
      → Result CollectionError Bytes × S
      → Option CollectionError × List Bytes × S
  insert_rest rest (err e, s) = (some e, [], s)
  insert_rest rest (ok id, s) = add_id id (rest s)

  -- The loop from index `i` on; `draw i` is the generated id and the time of the i-th insertion.
  unfoldable pub insert_many :
      (ℕ → Bytes × ℤ)
      → ℕ
      → List (List F)
      → List (Metadata V)
      → List Bytes
      → Collection V
      → S
      → Option CollectionError × List Bytes × S
  insert_many draw i [] metadatas ids c s = (none, [], s)
  insert_many draw i (vector ∷ vectors) metadatas ids c s =
      insert_rest (insert_many draw (suc i) vectors metadatas ids c) (
        insert db json vector (nth_or none i metadatas) (nth_or [] i ids) (draw i).0 (draw i).1 c s)
