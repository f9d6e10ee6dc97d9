-- ===== src/Namespace/Creation.antt =====
-- Creating collections, and opening them again.
use sochdb_go.Prelude.{
  ◌≡◌, refl, sym, ap, ◌∙◌, inl, inr, In, All, List, [], ◌∷◌, Bool, false, Option, none, some,
  if◌then◌else◌,
}
use sochdb_go.Prelude.Maps.{DistinctKeys, lookup}
use sochdb_go.Prelude.Int.{ℤ, pos, IsI64}
use sochdb_go.Prelude.Result.{ok}
use sochdb_go.Prelude.Bytes.{Bytes, codes}
use sochdb_go.Prelude.Bytes.Order.{bytes_eq, bytes_eq_self}
use sochdb_go.Store.{Db}
use sochdb_go.Namespace.{
  Metadata, Setting, text_setting, integer_setting, truth_setting, CollectionConfig, Collection,
  Namespace, NamespaceJson, metadata_key,
}
use sochdb_go.Namespace.Vectors.{get_outcome, put_blob, get_blob}
use sochdb_go.Namespace.Handle.{
  settings, opened_with, create_absent, create_collection, open_collection, collection,
}
use sochdb_go.Namespace.Stored.{VectorStore}
use sochdb_go.Namespace.Refine.{put_blob-ok}

infixl 5 ◌>>=◌
abbrev ◌>>=◌ : {A B : Type 0} → Option A → (A → Option B) → Option B
none >>= f = none
some a >>= f = f a

abbrev text_at : (Bytes → Bytes) → Option Setting → Option Bytes
text_at as_text none = some []
text_at as_text (some (text_setting t)) = some (as_text t)
text_at as_text (some (integer_setting z)) = none
text_at as_text (some (truth_setting b)) = none

abbrev integer_at : Option Setting → Option ℤ
integer_at none = some (pos 0)
integer_at (some (text_setting t)) = none
integer_at (some (integer_setting z)) = some z
integer_at (some (truth_setting b)) = none

abbrev truth_at : Option Setting → Option Bool
truth_at none = some false
truth_at (some (text_setting t)) = none
truth_at (some (integer_setting z)) = none
truth_at (some (truth_setting b)) = some b

-- No setting is a map.
abbrev map_at : {V : Type 0} → Option Setting → Option (Metadata V)
map_at none = some none
map_at (some setting) = none

-- What json.Unmarshal reads from a map of settings, by the tags of CollectionConfig: a field whose tag
-- is missing stays zero, a key that is no tag is passed over, and a value of another type is an error.
-- `as_text` is what it makes of a string.
pub config_of :
    {V : Type 0} → (Bytes → Bytes) → List (Bytes × Setting) → Option (CollectionConfig V)
config_of as_text fields = do
  name ← text_at as_text (lookup (codes "name") fields)
  dimension ← integer_at (lookup (codes "dimension") fields)
  metric ← text_at as_text (lookup (codes "metric") fields)
  indexed ← truth_at (lookup (codes "indexed") fields)
  hnsw_m ← integer_at (lookup (codes "hnsw_m") fields)
  hnsw_ef_construction ← integer_at (lookup (codes "hnsw_ef_construction") fields)
  metadata ← map_at (lookup (codes "metadata") fields)
  some (record {
    name = name;
    dimension = dimension;
    metric = metric;
    indexed = indexed;
    hnsw_m = hnsw_m;
    hnsw_ef_construction = hnsw_ef_construction;
    metadata = metadata;
  })

abbrev InRange : Setting → Type 0
InRange (text_setting t) = Unit {0}
InRange (integer_setting z) = IsI64 z
InRange (truth_setting b) = Unit {0}

-- The tags of CollectionConfig, and the one key of the stored map that is none.
abbrev setting_keys : List Bytes
setting_keys =
    codes "name"
    ∷ codes "dimension"
    ∷ codes "metric"
    ∷ codes "indexed"
    ∷ codes "hnsw_m"
    ∷ codes "hnsw_ef_construction"
    ∷ codes "metadata"
    ∷ codes "createdAt"
    ∷ []

-- A map with some of these keys, and integers of 64 bits.
abbrev pub IsSettings : List (Bytes × Setting) → Type 0
IsSettings fields =
    DistinctKeys fields × All (λ (e : Bytes × Setting). In e.0 setting_keys × InRange e.1) fields

-- encoding/json on such maps: what is marshalled is read by the tags. A string comes back with each
-- part that is no UTF-8 replaced.
pub record LawfulSettings {F V Blob : Type 0} (json : NamespaceJson F V Blob) : Type 0 where
  pub as_text : Bytes → Bytes
  pub read_settings :
      (fields : List (Bytes × Setting)) (b : Blob)
      → IsSettings fields
      → json.marshal_map fields ≡ some b
      → json.unmarshal_collection b ≡ config_of as_text fields

settings-IsSettings :
    {V : Type 0} (config : CollectionConfig V) (now : ℤ)
    → IsI64 config.dimension
    → IsI64 now
    → IsSettings (settings config now)
unfolding settings lookup bytes_eq
settings-IsSettings config now d t = (
  (refl, (refl, (refl, (refl, (refl, tt))))),
  (
    (inl refl, tt),
    (
      (inr (inl refl), d),
      (
        (inr (inr (inl refl)), tt),
        (
          (inr (inr (inr (inl refl))), tt),
          ((inr (inr (inr (inr (inr (inr (inr (inl refl))))))), t), tt),
        ),
      ),
    ),
  ),
)

-- Four of the settings come back; the other fields are zero.
settings-config_of :
    {V : Type 0} (as_text : Bytes → Bytes) (config : CollectionConfig V) (now : ℤ)
    → config_of {V = V} as_text (settings config now)
      ≡ some (record {
        name = as_text config.name;
        dimension = config.dimension;
        metric = as_text config.metric;
        indexed = config.indexed;
        hnsw_m = pos 0;
        hnsw_ef_construction = pos 0;
        metadata = none;
      })
unfolding config_of settings lookup bytes_eq
settings-config_of as_text config now = refl

module _ {S F V Blob : Type 0} {db : Db S Blob} {json : NamespaceJson F V Blob}
    (st : VectorStore db json) where
  create_absent-ok :
      (ns : Namespace) (config : CollectionConfig V) (now : ℤ) (s : S) (c : Collection V)
      (got : Option (Option Blob))
      → st.db_get (metadata_key ns.name config.name) s ≡ got
      → (create_absent db json ns config now (get_outcome got) s).0 ≡ ok c
      → (v : Blob) × (st.view s (metadata_key ns.name config.name) ≡ none)
        × (json.marshal_map (settings config now) ≡ some v)
        × (c ≡ record { namespace = ns.name; name = config.name; config = config })
        × ((j : Bytes)
            → st.view (create_absent db json ns config now (get_outcome got) s).1 j
              ≡ (if bytes_eq (metadata_key ns.name config.name) j then some v else st.view s j))
  unfolding create_absent
  create_absent-ok ns config now s c none e h = absurd (cc)
  create_absent-ok ns config now s c (some (some b)) e h = absurd (cc)
  create_absent-ok ns config now s c (some none) e h =
      let (v, marshalled, same, w) =
        put_blob-ok st _ c (metadata_key ns.name config.name)
          (json.marshal_map (settings config now)) s h in
      (v, sym (st.get_there (metadata_key ns.name config.name) s none e), marshalled, sym same, w)

  opened-ok :
      (ns : Namespace) (name : Bytes) (c : Collection V) (o : Option (CollectionConfig V))
      (config : CollectionConfig V)
      → o ≡ some config
      → opened_with ns name o ≡ ok c
      → c ≡ record { namespace = ns.name; name = name; config = config }
  opened-ok ns name c none config e h = absurd (cc)
  opened-ok ns name c (some config') config e h =
      let same : config' ≡ config = cc in
      let opened : record { namespace = ns.name; name = name; config = config' } ≡ c = cc in
      sym opened ∙ ap (λ f. record { namespace = ns.name; name = name; config = f }) same

  open_got-config :
      (ns : Namespace) (name : Bytes) (s : S) (c : Collection V) (r : Option (Option Blob))
      (v : Blob) (config : CollectionConfig V)
      → st.db_get (metadata_key ns.name name) s ≡ r
      → st.view s (metadata_key ns.name name) ≡ some v
      → json.unmarshal_collection v ≡ some config
      → open_collection json ns name (get_outcome r) ≡ ok c
      → c ≡ record { namespace = ns.name; name = name; config = config }
  unfolding open_collection
  open_got-config ns name s c none v config e there read h = absurd (cc)
  open_got-config ns name s c (some none) v config e there read h = absurd (cc)
  open_got-config ns name s c (some (some b)) v config e there read h =
      let same : some b ≡ some v = st.get_there (metadata_key ns.name name) s (some b) e ∙ there in
      let same' : b ≡ v = cc in
      opened-ok ns name c (json.unmarshal_collection b) config
        (ap json.unmarshal_collection same' ∙ read) h

  -- If CreateCollection returns a collection, there was no metadata under its key, the handle has the
  -- configuration that was asked for, and no other key changes. Where encoding/json keeps its documented behaviour on maps of settings, and the
  -- dimension and the time are int64 values: a handle that Collection then opens has the name and the
  -- metric as encoding/json gives strings back, the dimension and the index flag, and neither the HNSW
  -- parameters nor the metadata of the configuration.
  pub create_collection_opens :
      (ns : Namespace) (config : CollectionConfig V) (now : ℤ) (s : S) (c : Collection V)
      (law : LawfulSettings json)
      → IsI64 config.dimension
      → IsI64 now
      → (create_collection db json ns config now s).0 ≡ ok c
      → (st.view s (metadata_key ns.name config.name) ≡ none)
        × (c ≡ record { namespace = ns.name; name = config.name; config = config })
        × ((j : Bytes)
            → bytes_eq (metadata_key ns.name config.name) j ≡ false
            → st.view (create_collection db json ns config now s).1 j ≡ st.view s j)
        × ((c' : Collection V)
            → collection db json ns config.name (create_collection db json ns config now s).1
              ≡ ok c'
            → c' ≡ record {
              namespace = ns.name;
              name = config.name;
              config = record {
                name = law.as_text config.name;
                dimension = config.dimension;
                metric = law.as_text config.metric;
                indexed = config.indexed;
                hnsw_m = pos 0;
                hnsw_ef_construction = pos 0;
                metadata = none;
              };
            })
  unfolding create_collection collection get_blob create_absent put_blob
  create_collection_opens ns config now s c law d t h =
      let key : Bytes = metadata_key ns.name config.name in
      let got = st.db_get key s in
      let (v, absent, marshalled, same, w) =
        create_absent-ok ns config now s c got refl (rw st.get_is at h) in
      let read =
        law.read_settings (settings config now) v (settings-IsSettings config now d t) marshalled
        ∙ settings-config_of law.as_text config now in
      rw st.get_is (
        absent,
        same,
        (λ j other. w j ∙ ap (λ t. if t then some v else st.view s j) other),
        (λ c' opened.
            open_got-config ns config.name _ c' _ v _ refl
              (w key ∙ ap (λ t. if t then some v else st.view s key) (bytes_eq_self key)) read
              opened),
      )
