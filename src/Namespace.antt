-- ===== src/Namespace.antt =====
-- Namespaces and collections: namespace.go.
pub mod Vectors
pub mod Search
pub mod Handle
pub mod Keys
pub mod Stored
pub mod Refine
pub mod Creation
pub mod Removal
pub mod Ranking
mod Sorter
mod Tests
use sochdb_go.Prelude.{ℕ, List, [], ◌∷◌, ◌++◌, Bool, true, false, Option, none, some}
use sochdb_go.Prelude.Int.{ℤ}
use sochdb_go.Prelude.Bytes.{Bytes, codes}

pub record NamespaceConfig : Type 0 where
  pub name : Bytes
  pub display_name : Bytes
  pub labels : List (Bytes × Bytes)
  pub read_only : Bool

-- A map[string]interface{}: nil, or its entries.
abbrev pub Metadata : Type 0 → Type 0
Metadata V = Option (List (Bytes × V))

pub record CollectionConfig (V : Type 0) : Type 0 where
  pub name : Bytes
  pub dimension : ℤ
  pub metric : Bytes
  pub indexed : Bool
  pub hnsw_m : ℤ
  pub hnsw_ef_construction : ℤ
  pub metadata : Metadata V

pub record SearchRequest (F V : Type 0) : Type 0 where
  pub query_vector : List F
  pub k : ℤ
  pub filter : Metadata V
  pub include_metadata : Bool

pub record SearchResult (F V : Type 0) : Type 0 where
  pub id : Bytes
  pub score : F
  pub vector : List F
  pub metadata : Metadata V

pub record VectorData (F V : Type 0) : Type 0 where
  pub vector : List F
  pub metadata : Metadata V
  pub timestamp : ℤ

-- The database is passed to each method.
pub record Collection (V : Type 0) : Type 0 where
  pub namespace : Bytes
  pub name : Bytes
  pub config : CollectionConfig V

pub record Namespace : Type 0 where
  pub name : Bytes
  pub config : NamespaceConfig

-- `database_failed` is an error that a method of the database returned; `panicked` is Go's run-time
-- panic of a slice out of range.
pub data CollectionError : Type 0 where
  dimension_mismatch : ℤ → ℕ → CollectionError
  marshal_failed unmarshal_failed unsupported_database database_failed panicked : CollectionError
  collection_exists collection_not_found : Bytes → CollectionError

-- A value in the map[string]interface{} that CreateCollection makes.
pub data Setting : Type 0 where
  text_setting : Bytes → Setting
  integer_setting : ℤ → Setting
  truth_setting : Bool → Setting

-- encoding/json
pub record NamespaceJson (F V Blob : Type 0) : Type 0 where
  pub marshal_vector : VectorData F V → Option Blob
  pub unmarshal_vector : Blob → Option (VectorData F V)
  pub marshal_map : List (Bytes × Setting) → Option Blob
  pub unmarshal_collection : Blob → Option (CollectionConfig V)

-- "_collection/<namespace>/<collection>/"
unfoldable pub collection_prefix : Bytes → Bytes → Bytes
collection_prefix namespace name =
    codes "_collection/" ++ (namespace ++ (codes "/" ++ (name ++ codes "/")))

-- "_collection/<namespace>/"
unfoldable pub namespace_prefix : Bytes → Bytes
namespace_prefix namespace = codes "_collection/" ++ (namespace ++ codes "/")

-- "_collection/<namespace>/<collection>/metadata"
unfoldable pub metadata_key : Bytes → Bytes → Bytes
metadata_key namespace name =
    codes "_collection/" ++ (namespace ++ (codes "/" ++ (name ++ codes "/metadata")))

-- "_collection/<namespace>/<collection>/vectors/"
unfoldable pub vector_key_prefix : Bytes → Bytes → Bytes
vector_key_prefix namespace name =
    codes "_collection/" ++ (namespace ++ (codes "/" ++ (name ++ codes "/vectors/")))

-- "_collection/<namespace>/<collection>/vectors/<id>"
unfoldable pub vector_key : Bytes → Bytes → Bytes → Bytes
vector_key namespace name id =
    codes "_collection/" ++ (namespace ++ (codes "/" ++ (name ++ (codes "/vectors/" ++ id))))
