-- ===== src/Namespace/Tests.antt =====
-- The theorems on collections, over the database in memory.
use sochdb_go.Prelude.{
  ℕ, ◌*◌, ap, ◌≡◌, ◌≢◌, refl, List, [], ◌∷◌, true, false, ◌&&◌, Option, none, some, if◌then◌else◌,
  length, arith,
}
use sochdb_go.Prelude.Int.{pos}
use sochdb_go.Prelude.Result.{ok}
use sochdb_go.Prelude.Bytes.{Bytes, codes}
use sochdb_go.Prelude.Bytes.Order.{bytes_eq, cmp_bytes}
use sochdb_go.Prelude.Bytes.Prefix.{has_prefix}
use sochdb_go.Prelude.Bytes.Segments.{NoSlash}
use sochdb_go.Store.{Db}
use sochdb_go.Store.Memory.{
  Memory, view, view_of, insert, matching, put, get, delete, scan_prefix, put-LawfulPut,
  delete-LawfulDelete, scan_prefix-LawfulScan, memory_db,
}
use sochdb_go.Namespace.{
  Metadata, Setting, Namespace, CollectionConfig, SearchRequest, VectorData, Collection,
  NamespaceJson, collection_prefix, metadata_key, vector_key, vector_key_prefix,
}
use sochdb_go.Namespace.Vectors.{passes, compute_cosine_similarity, wide_sums, put_blob, get_blob}
use sochdb_go.Namespace.Handle.{create_absent, create_collection, collection, delete_collection}
use sochdb_go.Namespace.Stored.{VectorStore, contents}
use sochdb_go.Namespace.Refine.{Refines, collection-Refines}
use sochdb_go.Namespace.Removal.{delete_collection_removes}
use sochdb_go.Namespace.Creation.{config_of, IsSettings, LawfulSettings, create_collection_opens}
use sochdb_go.Namespace.Search.{search, rank, scan_results, limit, candidates, candidate, result_of}
use sochdb_go.Namespace.Ranking.{Ranked, search_ranks}
use sochdb_go.Namespace.Sorter.{
  Found, whole_env, whole_env-LawfulRanking, sort_results, insert_result,
}

-- What is stored: a vector's data or a map of settings.
data Blob : Type 0 where
  vector_blob : VectorData ℕ ℕ → Blob
  map_blob : List (Bytes × Setting) → Blob

as_vector : Blob → Option (VectorData ℕ ℕ)
as_vector (vector_blob d) = some d
as_vector (map_blob fields) = none

as_config : Blob → Option (CollectionConfig ℕ)
as_config (vector_blob d) = none
as_config (map_blob fields) = config_of (λ t. t) fields

-- Numbers in metadata come back in another form, here ten times as large.
abbrev widened : List (Bytes × ℕ) → List (Bytes × ℕ)
widened [] = []
widened ((k, n) ∷ fields) = (k, 10 * n) ∷ widened fields

abbrev as_json : Metadata ℕ → Metadata ℕ
as_json none = none
as_json (some fields) = some (widened fields)

abbrev json : NamespaceJson ℕ ℕ Blob
json = record {
  marshal_vector = λ d. some (vector_blob (record d { metadata = as_json d.metadata }));
  unmarshal_vector = as_vector;
  marshal_map = λ fields. some (map_blob fields);
  unmarshal_collection = as_config;
}

abbrev Stored : Type 0
Stored = Memory Blob

abbrev db : Db Stored Blob
db = memory_db

get_there_lem : (k : Bytes) (s : Stored) (r : Option Blob) → get k s ≡ some r → r ≡ view_of s k
unfolding get
get_there_lem k s r h = cc

read_back_lem :
    (d : VectorData ℕ ℕ) (b : Blob)
    → ◌≡◌ {A = Option Blob}
        (some (vector_blob (record d { metadata = as_json d.metadata })))
        (some b)
    → as_vector b ≡ some (record d { metadata = as_json d.metadata })
unfolding as_vector
read_back_lem d (vector_blob d') h = cc
read_back_lem d (map_blob fields) h = absurd (cc)

abbrev store : VectorStore db json
store = record {
  view = view_of;
  db_put = put;
  db_get = get;
  db_delete = delete;
  put_is = refl;
  get_is = refl;
  delete_is = refl;
  put_lawful = put-LawfulPut;
  delete_lawful = delete-LawfulDelete;
  get_there = get_there_lem;
  as_read = as_json;
  read_back = read_back_lem;
}

abbrev tenant : Namespace
tenant = record {
  name = codes "t";
  config = record { name = codes "t"; display_name = []; labels = []; read_only = false };
}

abbrev docs_config : CollectionConfig ℕ
docs_config = record {
  name = codes "docs";
  dimension = pos 2;
  metric = codes "cosine";
  indexed = true;
  hnsw_m = pos 16;
  hnsw_ef_construction = pos 200;
  metadata = none;
}

abbrev docs : Collection ℕ
docs = record { namespace = codes "t"; name = codes "docs"; config = docs_config }

tenant-NoSlash : NoSlash (codes "t")
tenant-NoSlash = omega arith

docs-NoSlash : NoSlash (codes "docs")
docs-NoSlash = omega arith

abbrev nothing : Stored
nothing = ([], tt)

collection-Refines_example : Refines store docs nothing
collection-Refines_example = collection-Refines store docs nothing tenant-NoSlash docs-NoSlash

created : (create_collection db json tenant docs_config (pos 5) nothing).0 ≡ ok docs
unfolding create_collection get_blob create_absent put_blob get put view
created = refl

read_settings_lem :
    (fields : List (Bytes × Setting)) (b : Blob)
    → IsSettings fields
    → ◌≡◌ {A = Option Blob} (some (map_blob fields)) (some b)
    → as_config b ≡ config_of (λ t. t) fields
unfolding as_config
read_settings_lem fields (vector_blob d) settings h = absurd (cc)
read_settings_lem fields (map_blob fields') settings h =
    let same : fields' ≡ fields = cc in ap (config_of (λ t. t)) same

json-LawfulSettings : LawfulSettings json
json-LawfulSettings = record { as_text = λ t. t; read_settings = read_settings_lem }

create_collection_opens_example :
    (view_of nothing (metadata_key (codes "t") (codes "docs")) ≡ none)
    × (docs ≡ docs)
    × ((j : Bytes)
        → bytes_eq (metadata_key (codes "t") (codes "docs")) j ≡ false
        → view_of (create_collection db json tenant docs_config (pos 5) nothing).1 j
          ≡ view_of nothing j)
    × ((c' : Collection ℕ)
        → collection db json tenant
            (codes "docs")
            (create_collection db json tenant docs_config (pos 5) nothing).1
          ≡ ok c'
        → c' ≡ record {
          namespace = codes "t";
          name = codes "docs";
          config = record {
            name = json-LawfulSettings.as_text (codes "docs");
            dimension = pos 2;
            metric = json-LawfulSettings.as_text (codes "cosine");
            indexed = true;
            hnsw_m = pos 0;
            hnsw_ef_construction = pos 0;
            metadata = none;
          };
        })
create_collection_opens_example =
    create_collection_opens store tenant docs_config (pos 5) nothing docs json-LawfulSettings
      (omega arith) (omega arith) created

abbrev with_docs : Stored
with_docs = (create_collection db json tenant docs_config (pos 5) nothing).1

delete_collection_removes_example :
    ((delete_collection db json tenant (codes "docs") with_docs).0 ≡ ok tt)
    × ((j : Bytes)
        → view_of (delete_collection db json tenant (codes "docs") with_docs).1 j ≡ (
            if has_prefix (collection_prefix (codes "t") (codes "docs")) j
            then none
            else view_of with_docs j))
    × ((ns' name' id : Bytes)
        → NoSlash ns'
        → NoSlash name'
        → contents store (delete_collection db json tenant (codes "docs") with_docs).1 ns' name' id
          ≡ (if bytes_eq (codes "t") ns' && bytes_eq (codes "docs") name'
              then none
              else contents store with_docs ns' name' id))
    × ((c : Collection ℕ)
        → collection db json tenant
            (codes "docs")
            (delete_collection db json tenant (codes "docs") with_docs).1
          ≢ ok c)
unfolding delete scan_prefix
delete_collection_removes_example =
    delete_collection_removes store scan_prefix refl scan_prefix-LawfulScan (λ k s. refl) tenant
      (codes "docs") with_docs refl tenant-NoSlash docs-NoSlash

-- Two vectors are stored; the query asks for the better one.
abbrev question : SearchRequest ℕ ℕ
question = record { query_vector = 1 ∷ 2 ∷ []; k = pos 1; filter = none; include_metadata = false }

abbrev stored_vector : Bytes → List ℕ → Stored → Stored
stored_vector id vector s =
    (put (vector_key (codes "t") (codes "docs") id)
      (vector_blob (record { vector = vector; metadata = none; timestamp = pos 5 })) s).0

abbrev two_vectors : Stored
two_vectors =
    stored_vector (codes "a") (1 ∷ 2 ∷ []) (stored_vector (codes "b") (2 ∷ 1 ∷ []) nothing)

abbrev answer : List Found
answer = record { id = codes "a"; score = 200; vector = []; metadata = none } ∷ []

found_one : search (whole_env as_vector) db question docs two_vectors ≡ ok answer
unfolding search rank scan_results limit sort_results insert_result candidates candidate result_of
    passes compute_cosine_similarity wide_sums scan_prefix matching put insert has_prefix
    vector_key_prefix vector_key as_vector cmp_bytes
found_one = refl

search_ranks_example :
    ((scan_prefix (vector_key_prefix (codes "t") (codes "docs")) two_vectors).1 ≡ true)
    × Ranked
        (whole_env as_vector)
        question
        (length (vector_key_prefix (codes "t") (codes "docs")))
        1
        (scan_prefix (vector_key_prefix (codes "t") (codes "docs")) two_vectors).0
        answer
search_ranks_example =
    search_ranks (whole_env as_vector) db scan_prefix question docs two_vectors 1 answer
      (whole_env-LawfulRanking as_vector) refl refl found_one
