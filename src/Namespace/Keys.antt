-- ===== src/Namespace/Keys.antt =====
-- The keys of collections whose namespaces and names have no slash.
use sochdb_go.Prelude.{[], ◌≡◌, ◌∙◌, ap, ◌++◌, ◌&&◌, arith}
use sochdb_go.Prelude.Bytes.{Bytes, codes}
use sochdb_go.Prelude.Bytes.Order.{bytes_eq}
use sochdb_go.Prelude.Bytes.Prefix.{has_prefix}
use sochdb_go.Prelude.Bytes.Segments.{
  NoSlash, has_prefix-common, bytes_eq-common, has_prefix-segment, bytes_eq-segment,
}
use sochdb_go.Namespace.{vector_key, metadata_key, collection_prefix}

module _ (ns ns' name name' : Bytes) (h : NoSlash ns) (h' : NoSlash ns') (k : NoSlash name)
    (k' : NoSlash name') where
  pub bytes_eq-vector_key :
      (id id' : Bytes)
      → bytes_eq (vector_key ns name id) (vector_key ns' name' id')
        ≡ (bytes_eq ns ns' && (bytes_eq name name' && bytes_eq id id'))
  unfolding vector_key
  bytes_eq-vector_key id id' =
      bytes_eq-common (codes "_collection/") _ _
      ∙ bytes_eq-segment ns ns' (name ++ (codes "/vectors/" ++ id))
          (name' ++ (codes "/vectors/" ++ id')) h h'
      ∙ ap (λ t. bytes_eq ns ns' && t)
          (bytes_eq-segment name name' (codes "vectors/" ++ id) (codes "vectors/" ++ id') k k'
            ∙ ap (λ t. bytes_eq name name' && t) (bytes_eq-common (codes "vectors/") id id'))

  -- The prefix of a collection fits the keys of that collection only.
  pub has_prefix-vector_key :
      (id : Bytes)
      → has_prefix (collection_prefix ns name) (vector_key ns' name' id)
        ≡ (bytes_eq ns ns' && bytes_eq name name')
  unfolding vector_key collection_prefix has_prefix
  has_prefix-vector_key id =
      has_prefix-common (codes "_collection/") (ns ++ (codes "/" ++ (name ++ codes "/")))
        (ns' ++ (codes "/" ++ (name' ++ (codes "/vectors/" ++ id))))
      ∙ has_prefix-segment ns ns' (name ++ codes "/") (name' ++ (codes "/vectors/" ++ id)) h h'
      ∙ ap (λ t. bytes_eq ns ns' && t)
          (has_prefix-segment name name' [] (codes "vectors/" ++ id) k k' ∙ ground arith)

  pub has_prefix-metadata_key :
      has_prefix (collection_prefix ns name) (metadata_key ns' name')
      ≡ (bytes_eq ns ns' && bytes_eq name name')
  unfolding metadata_key collection_prefix has_prefix
  has_prefix-metadata_key =
      has_prefix-common (codes "_collection/") (ns ++ (codes "/" ++ (name ++ codes "/")))
        (ns' ++ (codes "/" ++ (name' ++ codes "/metadata")))
      ∙ has_prefix-segment ns ns' (name ++ codes "/") (name' ++ codes "/metadata") h h'
      ∙ ap (λ t. bytes_eq ns ns' && t)
          (has_prefix-segment name name' [] (codes "metadata") k k' ∙ ground arith)
