-- ===== src/Namespace/Stored.antt =====
-- The methods of Collection against a map from namespaces, collections and ids to vectors.
use sochdb_go.Prelude.{
  ◌≡◌, refl, ap, ◌∙◌, Bool, true, false, ◌&&◌, Option, none, some, if◌then◌else◌,
}
use sochdb_go.Prelude.Result.{ok, err}
use sochdb_go.Prelude.Bytes.{Bytes}
use sochdb_go.Prelude.Bytes.Order.{bytes_eq}
use sochdb_go.Prelude.Bytes.Segments.{NoSlash}
use sochdb_go.Store.{Db}
use sochdb_go.Store.Laws.{LawfulPut, LawfulDelete}
use sochdb_go.Namespace.{
  Metadata, VectorData, Collection, CollectionError, NamespaceJson, vector_key,
}
use sochdb_go.Namespace.Vectors.{put_outcome}
use sochdb_go.Namespace.Keys.{bytes_eq-vector_key}

-- The abstract view: which vector stands under a namespace, a collection's name and an id.
abbrev pub Contents : Type 0 → Type 0 → Type 0
Contents F V = Bytes → Bytes → Bytes → Option (VectorData F V)

abbrev pub changed :
    {F V : Type 0} → Bytes → Bytes → Bytes → Option (VectorData F V) → Contents F V → Contents F V
changed ns name id value contents ns' name' id' =
    if bytes_eq ns ns' && (bytes_eq name name' && bytes_eq id id')
    then value
    else contents ns' name' id'

-- Equal at all namespaces and collections without a slash in their names.
abbrev pub Same : {F V : Type 0} → Contents F V → Contents F V → Type 0
Same m m' = (ns name id : Bytes) → NoSlash ns → NoSlash name → m ns name id ≡ m' ns name id

-- The database has the three methods, and they are lawful; a Get that returns no error returns what
-- is there.
pub record VectorStore {S F V Blob : Type 0} (db : Db S Blob) (json : NamespaceJson F V Blob)
    : Type 0 where
  pub view : S → Bytes → Option Blob
  pub db_put : Bytes → Blob → S → S × Bool
  pub db_get : Bytes → S → Option (Option Blob)
  pub db_delete : Bytes → S → S × Bool
  pub put_is : db.put ≡ some db_put
  pub get_is : db.get ≡ some db_get
  pub delete_is : db.delete ≡ some db_delete
  pub put_lawful : LawfulPut view db_put
  pub delete_lawful : LawfulDelete view db_delete
  pub get_there : (k : Bytes) (s : S) (r : Option Blob) → db_get k s ≡ some r → r ≡ view s k
  -- what encoding/json gives back for metadata that were marshalled: a number as a float64, nil as nil
  pub as_read : Metadata V → Metadata V
  -- a vector that is marshalled is read back, with its metadata in that form
  pub read_back :
      (d : VectorData F V) (b : Blob)
      → json.marshal_vector d ≡ some b
      → json.unmarshal_vector b ≡ some (record d { metadata = as_read d.metadata })

module _ {S F V Blob : Type 0} {db : Db S Blob} {json : NamespaceJson F V Blob}
    (st : VectorStore db json) where
  abbrev pub decoded : Option Blob → Option (VectorData F V)
  decoded none = none
  decoded (some b) = json.unmarshal_vector b

  abbrev pub contents : S → Contents F V
  contents s ns name id = decoded (st.view s (vector_key ns name id))

  pub decoded-if :
      (t : Bool) (b : Option Blob) (old : Option Blob)
      → decoded (if t then b else old) ≡ (if t then decoded b else decoded old)
  decoded-if true b old = refl
  decoded-if false b old = refl

  -- A write of one vector's key, in the view.
  pub written-Same :
      (c : Collection V) (id : Bytes) (b : Option Blob) (s s' : S)
      → NoSlash c.namespace
      → NoSlash c.name
      → ((j : Bytes)
          → st.view s' j
            ≡ (if bytes_eq (vector_key c.namespace c.name id) j then b else st.view s j))
      → Same (contents s') (changed c.namespace c.name id (decoded b) (contents s))
  written-Same c id b s s' h k w ns name id' h' k' =
      ap decoded (w (vector_key ns name id'))
      ∙ decoded-if (bytes_eq (vector_key c.namespace c.name id) (vector_key ns name id')) b
          (st.view s (vector_key ns name id'))
      ∙ ap (λ t. if t then decoded b else contents s ns name id')
          (bytes_eq-vector_key c.namespace ns c.name name h h' k k' id id')

  pub kept-Same :
      (s s' : S) → ((j : Bytes) → st.view s' j ≡ st.view s j) → Same (contents s') (contents s)
  kept-Same s s' w ns name id h k = ap decoded (w (vector_key ns name id))

  -- What a Put does, by its outcome.
  pub put_outcome-ok :
      {A : Type 0} (a b : A) (p : S × Bool) → (put_outcome a p).0 ≡ ok b → (p.1 ≡ true) × (a ≡ b)
  put_outcome-ok a b (s, true) h = (refl, cc)
  put_outcome-ok a b (s, false) h = absurd (cc)

  pub put_outcome-err :
      {A : Type 0} (a : A) (e : CollectionError) (p : S × Bool)
      → (put_outcome a p).0 ≡ err e
      → p.1 ≡ false
  put_outcome-err a e (s, true) h = absurd (cc)
  put_outcome-err a e (s, false) h = refl

  pub put_outcome-state : {A : Type 0} (a : A) (p : S × Bool) → (put_outcome a p).1 ≡ p.0
  put_outcome-state a (s, true) = refl
  put_outcome-state a (s, false) = refl
