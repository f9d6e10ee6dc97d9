-- ===== src/Overlay/Graph/Edges.antt =====
-- The scan of a node's edges.
use sochdb_go.Prelude.{[], ◌≡◌, ◌↔◌, ◌++◌, true, arith}
use sochdb_go.Prelude.Bytes.{Bytes, codes}
use sochdb_go.Prelude.Bytes.Order.{bytes_eq_iff}
use sochdb_go.Prelude.Bytes.Prefix.{has_prefix}
use sochdb_go.Prelude.Bytes.Segments.{NoSlash, has_prefix-common, has_prefix-segment}
use sochdb_go.Overlay.Graph.{edge_prefix, edge_key}

-- Where the ids of two nodes of a namespace have no slash, the prefix that Traverse scans for the
-- edges of one fits the key of an edge from the other exactly if they are the same node.
pub edge_prefix-edge_key_iff :
    (namespace a b edge_type to_id : Bytes)
    → NoSlash a
    → NoSlash b
    → (has_prefix (edge_prefix namespace a) (edge_key namespace b edge_type to_id) ≡ true) ↔ (a ≡ b)
unfolding edge_prefix edge_key has_prefix
edge_prefix-edge_key_iff namespace a b edge_type to_id h k =
    let rest : Bytes = edge_type ++ (codes "/" ++ to_id) in
    rw
      (
        has_prefix-common (codes "_graph/") (namespace ++ (codes "/edges/" ++ (a ++ codes "/")))
            (namespace ++ (codes "/edges/" ++ (b ++ (codes "/" ++ rest)))),
        has_prefix-common namespace (codes "/edges/" ++ (a ++ codes "/"))
            (codes "/edges/" ++ (b ++ (codes "/" ++ rest))),
        has_prefix-common (codes "/edges/") (a ++ codes "/") (b ++ (codes "/" ++ rest)),
        has_prefix-segment a b [] rest h k,
      )
      (ground (arith, bytes_eq_iff a b))
