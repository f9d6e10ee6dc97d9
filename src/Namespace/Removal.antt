-- ===== src/Namespace/Removal.antt =====
-- Deleting collections.
use sochdb_go.Prelude.{
  ◌≡◌, ◌≢◌, refl, sym, ap, ◌∙◌, List, [], ◌∷◌, Bool, true, false, ◌&&◌, Option, none, some,
  Bool-cases, Option-cases, inl, inr, In, if◌then◌else◌, arith,
}
use sochdb_go.Prelude.Result.{ok}
use sochdb_go.Prelude.Bytes.{Bytes}
use sochdb_go.Prelude.Bytes.Order.{bytes_eq, bytes_eq_iff, bytes_eq_self}
use sochdb_go.Prelude.Bytes.Prefix.{has_prefix}
use sochdb_go.Prelude.Bytes.Segments.{NoSlash}
use sochdb_go.Store.{Db}
use sochdb_go.Store.Laws.{LawfulScan}
use sochdb_go.Queue.Ops.Scan.{delete_all}
use sochdb_go.Queue.Purge.{holds, view-delete_all}
use sochdb_go.Namespace.{
  Collection, Namespace, NamespaceJson, collection_prefix, metadata_key, vector_key,
}
use sochdb_go.Namespace.Vectors.{get_outcome, get_blob}
use sochdb_go.Namespace.Handle.{keys_of, open_collection, collection, delete_collection}
use sochdb_go.Namespace.Keys.{has_prefix-vector_key, has_prefix-metadata_key}
use sochdb_go.Namespace.Stored.{VectorStore, decoded, decoded-if, contents}

if-none : {A : Type 0} (t : Bool) → ◌≡◌ {A = Option A} (if t then none else none) none
if-none true = refl
if-none false = refl

holds-In :
    {Blob : Type 0} (l : List (Bytes × Blob)) (j : Bytes) (v : Blob)
    → In (j, v) l
    → holds (keys_of l) j ≡ true
holds-In [] j v i = absurd i
holds-In ((k, w) ∷ l) j v (inl e) = rw (ap (λ (f : Bytes × _). f.0) (sym e), bytes_eq_self j) refl
holds-In ((k, w) ∷ l) j v (inr i) = ground (arith, holds-In l j v i)

In-holds :
    {Blob : Type 0} (l : List (Bytes × Blob)) (j : Bytes)
    → holds (keys_of l) j ≡ true
    → (v : Blob) × In (j, v) l
In-holds [] j h = absurd (cc)
In-holds ((k, w) ∷ l) j h = elim (Bool-cases (bytes_eq k j)) [
  | inl e ↦ (w, inl (ap (λ b. (b, w)) (sym ((bytes_eq_iff k j).0 e))))
  | inr e ↦ let (v, i) = In-holds l j (rw e at h) in (v, inr i)
]

module _ {S F V Blob : Type 0} {db : Db S Blob} {json : NamespaceJson F V Blob}
    (st : VectorStore db json) where
  open_got-ok :
      (ns : Namespace) (name : Bytes) (s : S) (c : Collection V) (r : Option (Option Blob))
      → st.db_get (metadata_key ns.name name) s ≡ r
      → open_collection json ns name (get_outcome r) ≡ ok c
      → (b : Blob) × (st.view s (metadata_key ns.name name) ≡ some b)
  unfolding open_collection
  open_got-ok ns name s c none e h = absurd (cc)
  open_got-ok ns name s c (some none) e h = absurd (cc)
  open_got-ok ns name s c (some (some b)) e h =
      (b, sym (st.get_there (metadata_key ns.name name) s (some b) e))

  -- A collection without metadata is not opened.
  not_opened :
      (ns : Namespace) (name : Bytes) (c : Collection V) (s : S)
      → st.view s (metadata_key ns.name name) ≡ none
      → collection db json ns name s ≢ ok c
  unfolding collection get_blob
  not_opened ns name c s gone h =
      let (b, there) =
        open_got-ok ns name s c (st.db_get (metadata_key ns.name name) s) refl
          (rw st.get_is at h) in
      cc

module _ {S F V Blob : Type 0} {db : Db S Blob} {json : NamespaceJson F V Blob}
    (st : VectorStore db json) (scan : Bytes → S → List (Bytes × Blob) × Bool)
    (scan_is : db.scan_prefix ≡ some scan) (lawful : LawfulScan st.view scan)
    (works : (k : Bytes) (s : S) → (st.db_delete k s).1 ≡ true) (ns : Namespace) (name : Bytes)
    (s : S) (fine : (scan (collection_prefix ns.name name) s).1 ≡ true) where
  abbrev collected : List Bytes
  collected = keys_of (scan (collection_prefix ns.name name) s).0

  delete_collection_lem :
      delete_collection db json ns name s ≡ (ok tt, (delete_all st.db_delete collected s).0)
  unfolding delete_collection
  delete_collection_lem = rw (scan_is, st.delete_is) refl

  -- The keys under the prefix are gone, and the others are as they were.
  view-delete_collection :
      (j : Bytes)
      → st.view (delete_all st.db_delete collected s).0 j
        ≡ (if has_prefix (collection_prefix ns.name name) j then none else st.view s j)
  view-delete_collection j =
      view-delete_all st.delete_lawful works collected s j
      ∙ elim (Bool-cases (has_prefix (collection_prefix ns.name name) j)) [
        | inl under ↦ rw under (elim (Option-cases (st.view s j)) [
          | inl gone ↦ rw gone (if-none (holds collected j))
          | inr (v, there) ↦
              rw
                (holds-In _ j v
                  (lawful.scan_complete (collection_prefix ns.name name) s j v fine under there))
                refl
        ])
        | inr other ↦ rw other (elim (Bool-cases (holds collected j)) [
          | inl held ↦
              let (v, i) = In-holds (scan (collection_prefix ns.name name) s).0 j held in
              absurd
                (let sound = (lawful.scan_sound (collection_prefix ns.name name) s j v i).0 in cc)
          | inr not_held ↦ rw not_held refl
        ])
      ]

  -- Where deletions work and the scan ends with no error, DeleteCollection returns no error, and all
  -- keys under the collection's prefix are gone, and no others. So, for names without a slash, the
  -- vectors of this collection are gone, those of all other collections are as before, and the
  -- collection cannot be opened any more.
  pub delete_collection_removes :
      NoSlash ns.name
      → NoSlash name
      → ((delete_collection db json ns name s).0 ≡ ok tt)
        × ((j : Bytes)
            → st.view (delete_collection db json ns name s).1 j
              ≡ (if has_prefix (collection_prefix ns.name name) j then none else st.view s j))
        × ((ns' name' id : Bytes)
            → NoSlash ns'
            → NoSlash name'
            → contents st (delete_collection db json ns name s).1 ns' name' id ≡ (
                if bytes_eq ns.name ns' && bytes_eq name name'
                then none
                else contents st s ns' name' id))
        × ((c : Collection V)
            → collection db json ns name (delete_collection db json ns name s).1 ≢ ok c)
  delete_collection_removes h k = rw delete_collection_lem (
    refl,
    view-delete_collection,
    λ ns' name' id h' k'.
        ap (decoded st) (view-delete_collection (vector_key ns' name' id))
        ∙ ap (λ t. decoded st (if t then none else st.view s (vector_key ns' name' id)))
            (has_prefix-vector_key ns.name ns' name name' h h' k k' id)
        ∙ decoded-if st (bytes_eq ns.name ns' && bytes_eq name name') none
            (st.view s (vector_key ns' name' id)),
    λ c. not_opened st ns name c (delete_all st.db_delete collected s).0 (
        view-delete_collection (metadata_key ns.name name)
        ∙ rw
            (
              has_prefix-metadata_key ns.name ns.name name name h h k k,
              bytes_eq_self ns.name,
              bytes_eq_self name,
            )
            refl),
  )
