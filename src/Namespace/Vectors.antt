-- ===== src/Namespace/Vectors.antt =====
-- The methods of Collection. The clock and the generated ids (the clock and random letters) are
-- arguments; json, the floats and sort.Slice are parameters.
use sochdb_go.Prelude.{
  ℕ, zero, suc, List, [], ◌∷◌, Bool, true, false, ◌&&◌, ◌||◌, not, Option, none, some, ◌==◌,
  if◌then◌else◌, length,
}
use sochdb_go.Prelude.Int.{ℤ, pos, negsuc}
use sochdb_go.Prelude.Result.{Result, ok, err}
use sochdb_go.Prelude.Bytes.{Bytes}
use sochdb_go.Prelude.Bytes.Order.{bytes_eq}
use sochdb_go.Store.{Db}
use sochdb_go.Namespace.{
  Metadata, VectorData, Collection, CollectionError, dimension_mismatch, marshal_failed,
  unmarshal_failed, unsupported_database, database_failed, NamespaceJson, vector_key,
  vector_key_prefix,
}

-- dimension > 0 && len(vector) != dimension
unfoldable pub wrong_dimension : ℤ → ℕ → Bool
wrong_dimension (pos zero) n = false
wrong_dimension (pos (suc d)) n = not (n == suc d)
wrong_dimension (negsuc d) n = false

-- An error that is nil, or not.
abbrev pub put_outcome : {S A : Type 0} → A → S × Bool → Result CollectionError A × S
put_outcome a (s, true) = (ok a, s)
put_outcome a (s, false) = (err database_failed, s)

abbrev pub get_outcome :
    {Blob : Type 0} → Option (Option Blob) → Result CollectionError (Option Blob)
get_outcome none = err database_failed
get_outcome (some value) = ok value

-- A value that json.Unmarshal read, or its error.
abbrev pub decode_outcome : {D : Type 0} → Option D → Result CollectionError (Option D)
decode_outcome none = err unmarshal_failed
decode_outcome (some d) = ok (some d)

abbrev pub id_or : Bytes → Bytes → Bytes
id_or [] generated = generated
id_or (b ∷ id) generated = b ∷ id

-- metadata[key]
unfoldable pub field_of : {V : Type 0} → Bytes → List (Bytes × V) → Option V
field_of key [] = none
field_of key ((k, v) ∷ fields) = if bytes_eq k key then some v else field_of key fields

-- `printed` is fmt.Sprintf("%v").
module _ {V : Type 0} (printed : V → Bytes) where
  unfoldable pub field_matches : Option V → V → Bool
  field_matches none expected = false
  field_matches (some actual) expected = bytes_eq (printed actual) (printed expected)

  unfoldable pub all_match : List (Bytes × V) → List (Bytes × V) → Bool
  all_match metadata [] = true
  all_match metadata ((key, expected) ∷ filter) =
      field_matches (field_of key metadata) expected && all_match metadata filter

  unfoldable pub matches_filter : Metadata V → List (Bytes × V) → Bool
  matches_filter none filter = false
  matches_filter (some metadata) filter = all_match metadata filter

  -- request.Filter != nil && !matchesFilter(...) does not hold.
  unfoldable pub passes : Metadata V → Metadata V → Bool
  passes metadata none = true
  passes metadata (some filter) = matches_filter metadata filter

-- float32 `F` and float64 `D`.
pub record Floats (F D : Type 0) : Type 0 where
  pub wide : F → D
  pub narrow : D → F
  pub zero_score : F
  pub zero_wide : D
  pub plus : D → D → D
  pub times : D → D → D
  pub over : D → D → D
  pub sqrt : D → D
  pub is_zero : D → Bool
  -- > on float32
  pub above : F → F → Bool

module _ {F D : Type 0} (floats : Floats F D) where
  unfoldable pub wide_sums : D → D → D → List F → List F → D × D × D
  wide_sums dot norm_a norm_b (x ∷ a) (y ∷ b) =
      wide_sums (floats.plus dot (floats.times (floats.wide x) (floats.wide y)))
        (floats.plus norm_a (floats.times (floats.wide x) (floats.wide x)))
        (floats.plus norm_b (floats.times (floats.wide y) (floats.wide y))) a b
  wide_sums dot norm_a norm_b [] b = (dot, norm_a, norm_b)
  wide_sums dot norm_a norm_b (x ∷ a) [] = (dot, norm_a, norm_b)

  unfoldable pub compute_cosine_similarity : List F → List F → F
  compute_cosine_similarity a b =
      let (dot, norm_a, norm_b) =
        wide_sums floats.zero_wide floats.zero_wide floats.zero_wide a b in
      if not (length a == length b)
      then floats.zero_score
      else if floats.is_zero (floats.sqrt norm_a) || floats.is_zero (floats.sqrt norm_b)
      then floats.zero_score
      else floats.narrow (floats.over dot (floats.times (floats.sqrt norm_a) (floats.sqrt norm_b)))

unfoldable pub decode_vector :
    {F V Blob : Type 0}
    → NamespaceJson F V Blob
    → Result CollectionError (Option Blob)
    → Result CollectionError (Option (VectorData F V))
decode_vector json (err e) = err e
decode_vector json (ok none) = ok none
decode_vector json (ok (some value)) = decode_outcome (json.unmarshal_vector value)

module _ {S F V Blob : Type 0} (db : Db S Blob) (json : NamespaceJson F V Blob) where
  -- The type assertion on Put, and the call.
  unfoldable pub put_blob :
      {A : Type 0} → A → Bytes → Option Blob → S → Result CollectionError A × S
  put_blob a key none s = (err marshal_failed, s)
  put_blob a key (some value) s = elim db.put [
    | none ↦ (err unsupported_database, s)
    | some put ↦ put_outcome a (put key value s)
  ]

  unfoldable pub insert :
      List F → Metadata V → Bytes → Bytes → ℤ → Collection V → S → Result CollectionError Bytes × S
  insert vector metadata id generated now c s =
      if wrong_dimension c.config.dimension (length vector)
      then (err (dimension_mismatch c.config.dimension (length vector)), s)
      else put_blob (id_or id generated) (vector_key c.namespace c.name (id_or id generated))
          (json.marshal_vector (record { vector = vector; metadata = metadata; timestamp = now })) s

  -- What the database's Get returns, or the error.
  unfoldable pub get_blob : Bytes → S → Result CollectionError (Option Blob)
  get_blob key s = elim db.get [
    | none ↦ err unsupported_database
    | some get ↦ get_outcome (get key s)
  ]

  unfoldable pub get : Bytes → Collection V → S → Result CollectionError (Option (VectorData F V))
  get id c s = decode_vector json (get_blob (vector_key c.namespace c.name id) s)

  unfoldable pub delete_blob : Bytes → S → Result CollectionError (Unit {0}) × S
  delete_blob key s = elim db.delete [
    | none ↦ (err unsupported_database, s)
    | some delete ↦ put_outcome tt (delete key s)
  ]

  unfoldable pub delete : Bytes → Collection V → S → Result CollectionError (Unit {0}) × S
  delete id c s = delete_blob (vector_key c.namespace c.name id) s

  -- The iterator's error is not looked at.
  unfoldable pub count : Collection V → S → ℕ
  count c s = elim db.scan_prefix [
    | none ↦ 0
    | some scan_prefix ↦ length (scan_prefix (vector_key_prefix c.namespace c.name) s).0
  ]
