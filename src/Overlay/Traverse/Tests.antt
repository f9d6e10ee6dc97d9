-- ===== src/Overlay/Traverse/Tests.antt =====
-- Traverse on a graph with the edges s-t, s-a, a-t and t-u.
use sochdb_go.Prelude.{
  ℕ, ◌≤◌, ◌≡◌, refl, In, List, [], ◌∷◌, Option, none, some, if◌then◌else◌, length,
}
use sochdb_go.Prelude.Int.{pos}
use sochdb_go.Prelude.Result.{ok}
use sochdb_go.Prelude.Bytes.{Bytes, codes}
use sochdb_go.Prelude.Bytes.Order.{bytes_eq}
use sochdb_go.Wire.Entries.{KeyValue}
use sochdb_go.Overlay.{Kv}
use sochdb_go.Overlay.Graph.{GraphNode, GraphEdge, node_key, edge_prefix}
use sochdb_go.Overlay.Traverse.{
  GraphReader, TraverseResult, too_deep, is_visited, pop_last, pop, read_node, follow_edge,
  follow_edges, follow_scan, expand, round, walk, traverse,
}
use sochdb_go.Overlay.Traverse.Steps.{SteadyKv}
use sochdb_go.Overlay.Traverse.Reach.{NodeWithin, EdgeWithin, traverse_reaches}
use sochdb_go.Overlay.Traverse.Complete.{traverse_bfs_complete}
use sochdb_go.Overlay.Traverse.Halting.{traverse_halts}

-- A text is read as a node with this id, and as an edge to it.
abbrev reader : GraphReader
reader = record {
  unmarshal_node = λ text. some (record { id = text; node_type = []; properties = [] });
  unmarshal_edge =
      λ text. some (record { from_id = []; edge_type = []; to_id = text; properties = [] });
}

abbrev edge_to : Bytes → KeyValue
edge_to id = record { key = id; value = id }

unfoldable list_edges : Bytes → List KeyValue
list_edges p =
    if bytes_eq p (edge_prefix (codes "g") (codes "s"))
    then edge_to (codes "t") ∷ edge_to (codes "a") ∷ []
    else if bytes_eq p (edge_prefix (codes "g") (codes "a"))
    then edge_to (codes "t") ∷ []
    else if bytes_eq p (edge_prefix (codes "g") (codes "t"))
    then edge_to (codes "u") ∷ []
    else []

abbrev server : Kv ℕ ℕ
server = record {
  kv_get = λ key s. (ok (some key), s);
  kv_put = λ key value s. (ok tt, s);
  kv_scan = λ p s. (ok (list_edges p), s);
}

abbrev steady : SteadyKv server
steady = record {
  fetch = λ key. ok (some key);
  listing = λ p. ok (list_edges p);
  get_is = λ k s. refl;
  scan_is = λ p s. refl;
}

abbrev found : Option (TraverseResult × ℕ) → TraverseResult
found none = record { nodes = []; edges = [] }
found (some (r, s)) = r

abbrev result : Bytes → TraverseResult
result order = found (traverse reader server (codes "g") (pos 2) 9 (codes "s") order 0)

bfs_run :
    traverse reader server (codes "g") (pos 2) 9 (codes "s") (codes "bfs") 0
    ≡ some (result (codes "bfs"), 0)
unfolding traverse walk round pop pop_last too_deep is_visited expand read_node follow_scan
    follow_edges follow_edge list_edges edge_prefix node_key bytes_eq
bfs_run = refl

dfs_run :
    traverse reader server (codes "g") (pos 2) 9 (codes "s") (codes "dfs") 0
    ≡ some (result (codes "dfs"), 0)
unfolding traverse walk round pop pop_last too_deep is_visited expand read_node follow_scan
    follow_edges follow_edge list_edges edge_prefix node_key bytes_eq
dfs_run = refl

-- Depth-first, "t" is visited at depth 2 first, so "u", which is at depth 2 behind it, is missed.
dfs_misses : (length (result (codes "bfs")).nodes ≡ 4) × (length (result (codes "dfs")).nodes ≡ 3)
unfolding traverse walk round pop pop_last too_deep is_visited expand read_node follow_scan
    follow_edges follow_edge list_edges edge_prefix node_key bytes_eq
dfs_misses = (refl, refl)

traverse_reaches_example :
    ((node : GraphNode)
      → In node (result (codes "dfs")).nodes
      → NodeWithin reader (codes "g") steady (pos 2) (codes "s") node)
    × ((edge : GraphEdge)
        → In edge (result (codes "dfs")).edges
        → EdgeWithin reader (codes "g") steady (pos 2) (codes "s") edge)
traverse_reaches_example =
    traverse_reaches reader (codes "g") steady (pos 2) (codes "s") (codes "dfs") 9 0 0
      (result (codes "dfs")) dfs_run

traverse_bfs_complete_example :
    ((node : GraphNode)
      → NodeWithin reader (codes "g") steady (pos 2) (codes "s") node
      → In node (result (codes "bfs")).nodes)
    × ((edge : GraphEdge)
        → EdgeWithin reader (codes "g") steady (pos 2) (codes "s") edge
        → In edge (result (codes "bfs")).edges)
traverse_bfs_complete_example =
    traverse_bfs_complete reader (codes "g") steady (pos 2) (codes "s") 9 0 0 (result (codes "bfs"))
      bfs_run

traverse_halts_example :
    (enough : ℕ) × (done : TraverseResult × ℕ) × ((fuel : ℕ)
      → enough ≤ fuel
      → traverse reader server (codes "g") (pos 2) fuel (codes "s") (codes "dfs") 0 ≡ some done)
traverse_halts_example =
    traverse_halts reader server (codes "g") (pos 2) (codes "s") (codes "dfs") 0
