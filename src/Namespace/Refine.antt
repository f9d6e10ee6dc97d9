-- ===== src/Namespace/Refine.antt =====
-- Collections refine the abstract map.
use sochdb_go.Prelude.{
  ◌≡◌, refl, sym, List, Bool, false, Option, none, some, Bool-cases, inl, inr, if◌then◌else◌,
  length,
}
use mathlib.Core.Path.{subst}
use sochdb_go.Prelude.Int.{ℤ}
use sochdb_go.Prelude.Result.{ok, err}
use sochdb_go.Prelude.Bytes.{Bytes}
use sochdb_go.Prelude.Bytes.Order.{bytes_eq}
use sochdb_go.Prelude.Bytes.Segments.{NoSlash}
use sochdb_go.Store.{Db}
use sochdb_go.Namespace.{
  Metadata, VectorData, Collection, CollectionError, NamespaceJson, vector_key,
}
use sochdb_go.Namespace.Vectors.{
  wrong_dimension, get_outcome, decode_outcome, id_or, put_blob, insert, get_blob, decode_vector,
  get, delete_blob, delete,
}
use sochdb_go.Namespace.Stored.{
  changed, Same, VectorStore, decoded, contents, written-Same, kept-Same, put_outcome-ok,
  put_outcome-err, put_outcome-state,
}

module _ {S F V Blob : Type 0} {db : Db S Blob} {json : NamespaceJson F V Blob}
    (st : VectorStore db json) where
  pub put_blob-ok :
      {A : Type 0} (a b : A) (key : Bytes) (value : Option Blob) (s : S)
      → (put_blob db json a key value s).0 ≡ ok b
      → (v : Blob) × (value ≡ some v)
        × (a ≡ b)
        × ((j : Bytes)
            → st.view (put_blob db json a key value s).1 j
              ≡ (if bytes_eq key j then some v else st.view s j))
  unfolding put_blob
  put_blob-ok a b key none s h = absurd (cc)
  put_blob-ok a b key (some v) s h =
      let (done, same) = put_outcome-ok st a b (st.db_put key v s) (rw st.put_is at h) in
      (
        v,
        refl,
        same,
        λ j.
            rw (st.put_is, put_outcome-state st a (st.db_put key v s))
              (st.put_lawful.put_done key v s j done),
      )

  put_blob-err :
      {A : Type 0} (a : A) (e : CollectionError) (key : Bytes) (value : Option Blob) (s : S)
      → (put_blob db json a key value s).0 ≡ err e
      → (j : Bytes) → st.view (put_blob db json a key value s).1 j ≡ st.view s j
  unfolding put_blob
  put_blob-err a e key none s h j = refl
  put_blob-err a e key (some v) s h j =
      rw (st.put_is, put_outcome-state st a (st.db_put key v s))
        (st.put_lawful.put_failed key v s j
          (put_outcome-err st a e (st.db_put key v s) (rw st.put_is at h)))

  pub decode_outcome-ok :
      (o : Option (VectorData F V)) (found : Option (VectorData F V))
      → decode_outcome o ≡ ok found
      → found ≡ o
  decode_outcome-ok none found h = absurd (cc)
  decode_outcome-ok (some d) found h = cc

  got-lem :
      (key : Bytes) (s : S) (found : Option (VectorData F V)) (r : Option (Option Blob))
      → st.db_get key s ≡ r
      → decode_vector json (get_outcome r) ≡ ok found
      → found ≡ decoded st (st.view s key)
  unfolding decode_vector
  got-lem key s found none e h = absurd (cc)
  got-lem key s found (some none) e h =
      let there : none ≡ st.view s key = st.get_there key s none e in rw (sym there) (cc)
  got-lem key s found (some (some b)) e h =
      let there : some b ≡ st.view s key = st.get_there key s (some b) e in
      rw (sym there) (decode_outcome-ok (json.unmarshal_vector b) found h)

  -- What a method of a collection `c` does to the abstract map.
  pub record Refines (c : Collection V) (s : S) : Type 0 where
    pub insert-ok :
        (vector : List F) (metadata : Metadata V) (id generated : Bytes) (now : ℤ)
        (vector_id : Bytes)
        → (insert db json vector metadata id generated now c s).0 ≡ ok vector_id
        → (vector_id ≡ id_or id generated)
          × (wrong_dimension c.config.dimension (length vector) ≡ false)
          × Same (contents st (insert db json vector metadata id generated now c s).1) (
              changed c.namespace c.name vector_id
                (some (record { vector = vector; metadata = st.as_read metadata; timestamp = now }))
                (contents st s))
    pub insert-err :
        (vector : List F) (metadata : Metadata V) (id generated : Bytes) (now : ℤ)
        (e : CollectionError)
        → (insert db json vector metadata id generated now c s).0 ≡ err e
        → Same (contents st (insert db json vector metadata id generated now c s).1) (contents st s)
    pub get-ok :
        (id : Bytes) (found : Option (VectorData F V))
        → get db json id c s ≡ ok found
        → found ≡ contents st s c.namespace c.name id
    pub delete-ok :
        (id : Bytes)
        → (delete db json id c s).0 ≡ ok tt
        → Same
            (contents st (delete db json id c s).1)
            (changed c.namespace c.name id none (contents st s))
    pub delete-err :
        (id : Bytes) (e : CollectionError)
        → (delete db json id c s).0 ≡ err e
        → Same (contents st (delete db json id c s).1) (contents st s)

  module _ (c : Collection V) (s : S) (h : NoSlash c.namespace) (k : NoSlash c.name) where
    insert-ok_lem :
        (vector : List F) (metadata : Metadata V) (id generated : Bytes) (now : ℤ)
        (vector_id : Bytes)
        → (insert db json vector metadata id generated now c s).0 ≡ ok vector_id
        → (vector_id ≡ id_or id generated)
          × (wrong_dimension c.config.dimension (length vector) ≡ false)
          × Same (contents st (insert db json vector metadata id generated now c s).1) (
              changed c.namespace c.name vector_id
                (some (record { vector = vector; metadata = st.as_read metadata; timestamp = now }))
                (contents st s))
    unfolding insert
    insert-ok_lem vector metadata id generated now vector_id e =
        elim (Bool-cases (wrong_dimension c.config.dimension (length vector))) [
          | inl wrong ↦ absurd (let e' = rw wrong at e in cc)
          | inr right ↦
              let d : VectorData F V = record {
                vector = vector;
                metadata = metadata;
                timestamp = now;
              } in
              let (v, marshalled, same, w) =
                put_blob-ok (id_or id generated) vector_id
                  (vector_key c.namespace c.name (id_or id generated)) (json.marshal_vector d) s
                  (rw right at e) in
              let s' : S =
                (put_blob db json (id_or id generated)
                  (vector_key c.namespace c.name (id_or id generated)) (json.marshal_vector d)
                  s).1 in
              (
                sym same,
                right,
                rw right (
                    subst
                      (λ i. Same (contents st s') (
                        changed c.namespace c.name i
                          (some (record d { metadata = st.as_read metadata })) (contents st s)))
                      same
                      (subst
                        (λ o.
                          Same (contents st s')
                            (changed c.namespace c.name (id_or id generated) o (contents st s)))
                        (st.read_back d v marshalled)
                        (written-Same st c (id_or id generated) (some v) s s' h k w))),
              )
        ]

    insert-err_lem :
        (vector : List F) (metadata : Metadata V) (id generated : Bytes) (now : ℤ)
        (e : CollectionError)
        → (insert db json vector metadata id generated now c s).0 ≡ err e
        → Same (contents st (insert db json vector metadata id generated now c s).1) (contents st s)
    unfolding insert
    insert-err_lem vector metadata id generated now e failed =
        elim (Bool-cases (wrong_dimension c.config.dimension (length vector))) [
          | inl wrong ↦ rw wrong (λ ns name i h' k'. refl)
          | inr right ↦
              rw right
                (kept-Same st s _ (put_blob-err (id_or id generated) e _ _ s (rw right at failed)))
        ]

    get-ok_lem :
        (id : Bytes) (found : Option (VectorData F V))
        → get db json id c s ≡ ok found
        → found ≡ contents st s c.namespace c.name id
    unfolding get get_blob
    get-ok_lem id found e =
        got-lem (vector_key c.namespace c.name id) s found
          (st.db_get (vector_key c.namespace c.name id) s) refl (rw st.get_is at e)

    delete-ok_lem :
        (id : Bytes)
        → (delete db json id c s).0 ≡ ok tt
        → Same
            (contents st (delete db json id c s).1)
            (changed c.namespace c.name id none (contents st s))
    unfolding delete delete_blob
    delete-ok_lem id e =
        let p : S × Bool = st.db_delete (vector_key c.namespace c.name id) s in
        let done = (put_outcome-ok st tt tt p (rw st.delete_is at e)).0 in
        rw (st.delete_is, put_outcome-state st tt p)
          (written-Same st c id none s p.0 h k
            (λ j. st.delete_lawful.delete_done (vector_key c.namespace c.name id) s j done))

    delete-err_lem :
        (id : Bytes) (e : CollectionError)
        → (delete db json id c s).0 ≡ err e
        → Same (contents st (delete db json id c s).1) (contents st s)
    unfolding delete delete_blob
    delete-err_lem id e failed =
        let p : S × Bool = st.db_delete (vector_key c.namespace c.name id) s in
        let not_done = put_outcome-err st tt e p (rw st.delete_is at failed) in
        rw (st.delete_is, put_outcome-state st tt p)
          (kept-Same st s p.0
            (λ j. st.delete_lawful.delete_failed (vector_key c.namespace c.name id) s j not_done))

    -- Over a lawful database, on a collection whose namespace and name have no slash: an Insert
    -- that returns an id has a vector of the collection's dimension, returns the id it was given or
    -- else the generated one, and sets this vector in the abstract map, with its metadata in the form
    -- in which encoding/json gives them back; a Delete that returns no
    -- error removes one vector; a Get that returns no error returns what the map has. Everything
    -- else in the map stays, and an Insert or a Delete that fails changes nothing of it.
    pub collection-Refines : Refines c s
    collection-Refines = record {
      insert-ok = insert-ok_lem;
      insert-err = insert-err_lem;
      get-ok = get-ok_lem;
      delete-ok = delete-ok_lem;
      delete-err = delete-err_lem;
    }
