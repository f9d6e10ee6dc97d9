-- ===== src/MemorySystem.antt =====
-- The memory system: memory_types.go. The files that use it are modelled in the children.
pub mod Allowed
pub mod Reads
pub mod Scoring
pub mod Retrieval
pub mod Consolidation
pub mod Extraction
pub mod Memory
mod Tests
use sochdb_go.Prelude.{
  ◌≡◌, In, List, [], ◌∷◌, ◌++◌, Bool, true, false, ◌&&◌, ◌||◌, Option, none, some, if◌then◌else◌,
  leb, length, take,
}
use sochdb_go.Prelude.Int.{ℤ}
use sochdb_go.Prelude.Bytes.{Bytes, codes}
use sochdb_go.Prelude.Bytes.Order.{bytes_eq}
use sochdb_go.Prelude.Maps.{Dict, lookup, set_entry}

-- A map[string]interface{}: nil, or its entries, with values of the type `V`.
abbrev pub Fields : Type 0 → Type 0
Fields V = Option (Dict V)

pub record Entity (F V : Type 0) : Type 0 where
  pub id : Bytes
  pub name : Bytes
  pub entity_type : Bytes
  pub properties : Fields V
  pub confidence : F
  pub provenance : Bytes
  pub timestamp : ℤ

pub record Relation (F V : Type 0) : Type 0 where
  pub id : Bytes
  pub from_entity : Bytes
  pub relation_type : Bytes
  pub to_entity : Bytes
  pub properties : Fields V
  pub confidence : F
  pub provenance : Bytes
  pub timestamp : ℤ

pub record Assertion (F : Type 0) : Type 0 where
  pub id : Bytes
  pub subject : Bytes
  pub predicate : Bytes
  pub object : Bytes
  pub confidence : F
  pub provenance : Bytes
  pub timestamp : ℤ

pub record RawAssertion (F V : Type 0) : Type 0 where
  pub id : Bytes
  pub fact : Fields V
  pub source : Bytes
  pub confidence : F
  pub timestamp : ℤ

pub record CanonicalFact (F V : Type 0) : Type 0 where
  pub id : Bytes
  pub merged_fact : Fields V
  pub confidence : F
  pub sources : List Bytes
  pub valid_from : ℤ
  pub valid_until : Option ℤ

pub record ExtractionResult (F V : Type 0) : Type 0 where
  pub entities : List (Entity F V)
  pub relations : List (Relation F V)
  pub assertions : List (Assertion F)

pub record ExtractionSchema (F : Type 0) : Type 0 where
  pub entity_types : List Bytes
  pub relation_types : List Bytes
  pub min_confidence : F
  pub require_provenance : Bool

pub record ConsolidationConfig (F : Type 0) : Type 0 where
  pub similarity_threshold : F
  pub use_temporal_updates : Bool
  pub max_conflict_age : ℤ

pub record RetrievalConfig (F : Type 0) : Type 0 where
  pub limit : ℤ
  pub lexical_weight : F
  pub semantic_weight : F
  pub rrf_constant : ℤ
  pub prefilter_ratio : F
  pub use_prefiltering : Bool

-- The implementations of AllowedSet.
pub data AllowedSet (V : Type 0) : Type 0 where
  ids_allowed_set : Dict Bool → AllowedSet V
  namespace_allowed_set : Bytes → AllowedSet V
  filter_allowed_set : (Bytes → Fields V → Bool) → AllowedSet V
  all_allowed_set : AllowedSet V

-- The loop of NewIdsAllowedSet.
unfoldable pub mark_ids : List Bytes → Dict Bool → Dict Bool
mark_ids [] ids = ids
mark_ids (id ∷ rest) ids = mark_ids rest (set_entry id true ids)

unfoldable pub new_ids_allowed_set : {V : Type 0} → List Bytes → AllowedSet V
new_ids_allowed_set ids = ids_allowed_set (mark_ids ids [])

abbrev pub or_false : Option Bool → Bool
or_false none = false
or_false (some b) = b

-- id[:len(prefix)] == prefix
unfoldable pub starts_with : Bytes → Bytes → Bool
starts_with prefix id = bytes_eq (take (length prefix) id) prefix

unfoldable pub in_namespace : Bytes → Bytes → Bool
in_namespace namespace id =
    leb (length (namespace ++ codes "_")) (length id)
    && (starts_with (namespace ++ codes "_") id || starts_with (namespace ++ codes ":") id)

unfoldable pub is_allowed : {V : Type 0} → AllowedSet V → Bytes → Fields V → Bool
is_allowed (ids_allowed_set ids) id metadata = or_false (lookup id ids)
is_allowed (namespace_allowed_set namespace) id metadata = in_namespace namespace id
is_allowed (filter_allowed_set filter_fn) id metadata = filter_fn id metadata
is_allowed all_allowed_set id metadata = true

-- float64 as it is used here; `of_int` is float64 of an int.
pub record Reals (F : Type 0) : Type 0 where
  pub zero_real : F
  pub half : F
  pub one : F
  pub of_int : ℤ → F
  pub plus : F → F → F
  pub minus : F → F → F
  pub times : F → F → F
  pub over : F → F → F
  pub log : F → F
  pub sqrt : F → F
  pub equal : F → F → Bool
  pub above : F → F → Bool

-- The type assertions on an interface{}.
pub record Values (V : Type 0) : Type 0 where
  pub as_text : V → Option Bytes
  pub of_text : Bytes → V

-- embedded.Database as these files use it: Put, Get, and the entries that a loop over ScanPrefix in a
-- transaction of its own gives; whether the scan ended with an error is not looked at.
pub record AutoDb (S : Type 0) : Type 0 where
  pub put : Bytes → Bytes → S → S × Bool
  pub get : Bytes → S → Option (Option Bytes)
  pub scan : Bytes → S → List (Bytes × Bytes) × Bool

-- The loop over the entries of a scan that collects the values it can read.
unfoldable pub read_values : {A : Type 0} → (Bytes → Option A) → List (Bytes × Bytes) → List A
read_values unmarshal [] = []
read_values unmarshal ((key, value) ∷ entries) =
    let rest = read_values unmarshal entries in
    elim (unmarshal value) [ none ↦ rest | some a ↦ a ∷ rest ]

-- A Put that succeeds sets its key and nothing else, and a scan that ends with no error lists
-- what is stored behind its prefix.
pub record LawfulDb {S : Type 0} (db : AutoDb S) : Type 0 where
  pub get-put :
      (k key value : Bytes) (s : S)
      → (db.put key value s).1 ≡ true
      → db.get k (db.put key value s).0 ≡ (if bytes_eq key k then some (some value) else db.get k s)
  pub get-put_failed :
      (k key value : Bytes) (s : S)
      → (db.put key value s).1 ≡ false
      → db.get k (db.put key value s).0 ≡ db.get k s
  pub scan_complete :
      (prefix rest value : Bytes) (s : S)
      → (db.scan prefix s).1 ≡ true
      → db.get (prefix ++ rest) s ≡ some (some value)
      → In (prefix ++ rest, value) (db.scan prefix s).0
