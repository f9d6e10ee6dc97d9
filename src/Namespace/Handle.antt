-- ===== src/Namespace/Handle.antt =====
-- The methods of Namespace.
use sochdb_go.Prelude.{
  ℕ, List, [], ◌∷◌, Option, none, some, ◌==◌, if◌then◌else◌, length, drop, Ordering,
}
use sochdb_go.Prelude.Int.{ℤ}
use sochdb_go.Prelude.Result.{Result, ok, err}
use sochdb_go.Prelude.Bytes.{Bytes, codes}
use sochdb_go.Prelude.Bytes.Order.{cmp_bytes}
use sochdb_go.Store.{Db, both}
use sochdb_go.Queue.Ops.Scan.{delete_all}
use sochdb_go.Namespace.{
  CollectionConfig, Setting, text_setting, integer_setting, truth_setting, Collection, Namespace,
  CollectionError, unmarshal_failed, collection_exists, collection_not_found, NamespaceJson,
  collection_prefix, namespace_prefix, metadata_key,
}
use sochdb_go.Namespace.Vectors.{put_blob, get_blob, delete_blob}

abbrev pub keys_of : {Blob : Type 0} → List (Bytes × Blob) → List Bytes
keys_of [] = []
keys_of ((key, value) ∷ entries) = key ∷ keys_of entries

-- strings.SplitN(text, "/", 2)[0]
unfoldable pub before_slash : Bytes → Bytes
before_slash [] = []
before_slash (b ∷ text) = if b == b'/' then [] else b ∷ before_slash text

-- A set of names that is sorted by bytes.
unfoldable pub insert_name : Bytes → List Bytes → List Bytes
insert_name name [] = name ∷ []
insert_name name (n ∷ names) =
    let rest = insert_name name names in
    elim (cmp_bytes name n) [
      | Ordering.lt ↦ name ∷ n ∷ names
      | Ordering.eq ↦ n ∷ names
      | Ordering.gt ↦ n ∷ rest
    ]

-- The name of a collection in a key, behind a prefix of `size` bytes, if it is not empty.
unfoldable pub collect_name : ℕ → Bytes → List Bytes → List Bytes
collect_name size key names = elim (before_slash (drop size key)) [
  | [] ↦ names
  | b ∷ name ↦ insert_name (b ∷ name) names
]

unfoldable pub collect_names : ℕ → List Bytes → List Bytes
collect_names size [] = []
collect_names size (key ∷ keys) = collect_name size key (collect_names size keys)

abbrev pub opened_with :
    {V : Type 0}
    → Namespace
    → Bytes
    → Option (CollectionConfig V)
    → Result CollectionError (Collection V)
opened_with ns name none = err unmarshal_failed
opened_with ns name (some config) =
    ok (record { namespace = ns.name; name = name; config = config })

unfoldable pub open_collection :
    {F V Blob : Type 0}
    → NamespaceJson F V Blob
    → Namespace
    → Bytes
    → Result CollectionError (Option Blob)
    → Result CollectionError (Collection V)
open_collection json ns name (err e) = err e
open_collection json ns name (ok none) = err (collection_not_found name)
open_collection json ns name (ok (some metadata)) =
    opened_with ns name (json.unmarshal_collection metadata)

-- The map that CreateCollection stores.
unfoldable pub settings : {V : Type 0} → CollectionConfig V → ℤ → List (Bytes × Setting)
settings config now =
    (codes "name", text_setting config.name)
    ∷ (codes "dimension", integer_setting config.dimension)
    ∷ (codes "metric", text_setting config.metric)
    ∷ (codes "indexed", truth_setting config.indexed)
    ∷ (codes "createdAt", integer_setting now)
    ∷ []

module _ {S F V Blob : Type 0} (db : Db S Blob) (json : NamespaceJson F V Blob) where
  abbrev pub handle : Namespace → CollectionConfig V → Collection V
  handle ns config = record { namespace = ns.name; name = config.name; config = config }

  -- What follows the look for existing metadata.
  unfoldable pub create_absent :
      Namespace
      → CollectionConfig V
      → ℤ
      → Result CollectionError (Option Blob)
      → S
      → Result CollectionError (Collection V) × S
  create_absent ns config now (err e) s = (err e, s)
  create_absent ns config now (ok (some existing)) s = (err (collection_exists config.name), s)
  create_absent ns config now (ok none) s =
      put_blob db json (handle ns config) (metadata_key ns.name config.name)
        (json.marshal_map (settings config now)) s

  unfoldable pub create_collection :
      Namespace → CollectionConfig V → ℤ → S → Result CollectionError (Collection V) × S
  create_collection ns config now s =
      create_absent ns config now (get_blob db json (metadata_key ns.name config.name) s) s

  unfoldable pub collection : Namespace → Bytes → S → Result CollectionError (Collection V)
  collection ns name s =
      open_collection json ns name (get_blob db json (metadata_key ns.name name) s)

  -- Creation, if the error is that the collection was not found.
  unfoldable pub or_create :
      Namespace
      → CollectionConfig V
      → ℤ
      → Result CollectionError (Collection V)
      → S
      → Result CollectionError (Collection V) × S
  or_create ns config now (ok c) s = (ok c, s)
  or_create ns config now (err (collection_not_found name)) s = create_collection ns config now s
  or_create ns config now (err e) s = (err e, s)

  unfoldable pub get_or_create_collection :
      Namespace → CollectionConfig V → ℤ → S → Result CollectionError (Collection V) × S
  get_or_create_collection ns config now s = or_create ns config now (collection ns config.name s) s

  -- The errors of the deletions are not looked at.
  unfoldable pub delete_collection : Namespace → Bytes → S → Result CollectionError (Unit {0}) × S
  delete_collection ns name s = elim (both db.scan_prefix db.delete) [
    | none ↦ delete_blob db json (metadata_key ns.name name) s
    | some (scan_prefix, delete) ↦ (
      ok tt,
      (delete_all delete (keys_of (scan_prefix (collection_prefix ns.name name) s).0) s).0,
    )
  ]

  unfoldable pub list_collections : Namespace → S → List Bytes
  list_collections ns s = elim db.scan_prefix [
    | none ↦ []
    | some scan_prefix ↦
        collect_names (length (namespace_prefix ns.name))
          (keys_of (scan_prefix (namespace_prefix ns.name) s).0)
  ]
