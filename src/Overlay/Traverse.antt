-- ===== src/Overlay/Traverse.antt =====
-- Traverse of client.go. The loop runs on fuel; Overlay/Traverse/Halting shows that enough exists.
pub mod Levels
pub mod Halting
pub mod Steps
pub mod Reach
pub mod Frontier
pub mod Known
pub mod Complete
mod Tests
use sochdb_go.Prelude.{
  ℕ, zero, suc, ◌+◌, List, [], ◌∷◌, ◌++◌, Bool, true, false, ◌||◌, Option, none, some, ltb,
  if◌then◌else◌,
}
use sochdb_go.Prelude.Int.{ℤ, pos, negsuc}
use sochdb_go.Prelude.Result.{Result, ok, err}
use sochdb_go.Prelude.Bytes.{Bytes, codes}
use sochdb_go.Prelude.Bytes.Order.{bytes_eq}
use sochdb_go.Wire.Entries.{KeyValue}
use sochdb_go.Overlay.{Kv}
use sochdb_go.Overlay.Graph.{GraphNode, GraphEdge, node_key, edge_prefix}

-- json.Unmarshal
pub record GraphReader : Type 0 where
  pub unmarshal_node : Bytes → Option GraphNode
  pub unmarshal_edge : Bytes → Option GraphEdge

pub record QueueItem : Type 0 where
  pub node_id : Bytes
  pub depth : ℕ

-- The variables of the loop; `visited` has the ids that the map has.
pub record Walk : Type 0 where
  pub visited : List Bytes
  pub nodes : List GraphNode
  pub edges : List GraphEdge
  pub frontier : List QueueItem

pub record TraverseResult : Type 0 where
  pub nodes : List GraphNode
  pub edges : List GraphEdge

-- current.depth > maxDepth
unfoldable pub too_deep : ℕ → ℤ → Bool
too_deep depth (pos max_depth) = ltb max_depth depth
too_deep depth (negsuc n) = true

-- visited[id]
unfoldable pub is_visited : Bytes → List Bytes → Bool
is_visited id [] = false
is_visited id (v ∷ visited) = bytes_eq v id || is_visited id visited

-- The last item, and the items before it.
unfoldable pub pop_last : QueueItem → List QueueItem → QueueItem × List QueueItem
pop_last item [] = (item, [])
pop_last item (next ∷ items) = let (last, rest) = pop_last next items in (last, item ∷ rest)

-- The item that a round takes, and the rest of the frontier.
unfoldable pub pop : Bytes → QueueItem → List QueueItem → QueueItem × List QueueItem
pop order item items = if bytes_eq order (codes "bfs") then (item, items) else pop_last item items

abbrev pub start_walk : Bytes → Walk
start_walk start_node = record {
  visited = [];
  nodes = [];
  edges = [];
  frontier = record { node_id = start_node; depth = 0 } ∷ [];
}

abbrev pub walked : {S : Type 0} → Option (Walk × S) → Option (TraverseResult × S)
walked none = none
walked (some (w, s)) = some (record { nodes = w.nodes; edges = w.edges }, s)

-- nodes = append(nodes, node), if json.Unmarshal read one.
abbrev pub append_node : Option GraphNode → List GraphNode → List GraphNode
append_node none nodes = nodes
append_node (some node) nodes = nodes ++ (node ∷ [])

module _ (reader : GraphReader) where
  -- nodeData, if there is one that can be read.
  unfoldable pub read_node :
      {E : Type 0} → Result E (Option Bytes) → List GraphNode → List GraphNode
  read_node (err e) nodes = nodes
  read_node (ok none) nodes = nodes
  read_node (ok (some text)) nodes = append_node (reader.unmarshal_node text) nodes

  -- One entry of the scan, for a node at `depth`.
  unfoldable pub follow_edge : ℕ → Option GraphEdge → Walk → Walk
  follow_edge depth none w = w
  follow_edge depth (some edge) w = record w {
    edges = w.edges ++ (edge ∷ []);
    frontier =
        if is_visited edge.to_id w.visited
        then w.frontier
        else w.frontier ++ (record { node_id = edge.to_id; depth = suc depth } ∷ []);
  }

  unfoldable pub follow_edges : ℕ → List KeyValue → Walk → Walk
  follow_edges depth [] w = w
  follow_edges depth (kv ∷ results) w =
      follow_edges depth results (follow_edge depth (reader.unmarshal_edge kv.value) w)

  unfoldable pub follow_scan : {E : Type 0} → ℕ → Result E (List KeyValue) → Walk → Walk
  follow_scan depth (err e) w = w
  follow_scan depth (ok results) w = follow_edges depth results w

  module _ {S E : Type 0} (kv : Kv S E) (namespace : Bytes) where
    -- A round behind the guard: `current` is marked, its node and its edges are read.
    unfoldable pub expand : QueueItem → List QueueItem → Walk → S → Walk × S
    expand current rest w s =
        let (found, s1) = kv.kv_get (node_key namespace current.node_id) s in
        let (results, s2) = kv.kv_scan (edge_prefix namespace current.node_id) s1 in
        (
          follow_scan current.depth results (record {
            visited = current.node_id ∷ w.visited;
            nodes = read_node found w.nodes;
            edges = w.edges;
            frontier = rest;
          }),
          s2,
        )

    module _ (max_depth : ℤ) where
      unfoldable pub round : QueueItem × List QueueItem → Walk → S → Walk × S
      round (current, rest) w s =
          if too_deep current.depth max_depth || is_visited current.node_id w.visited
          then (record w { frontier = rest }, s)
          else expand current rest w s

      -- The loop, at most `fuel` rounds; none if that was not enough.
      unfoldable pub walk : ℕ → Bytes → Walk → S → Option (Walk × S)
      walk zero order w s = elim w.frontier [ [] ↦ some (w, s) | item ∷ items ↦ none ]
      walk (suc fuel) order w s = elim w.frontier [
        | [] ↦ some (w, s)
        | item ∷ items ↦ let (w', s') = round (pop order item items) w s in walk fuel order w' s'
      ]

      unfoldable pub traverse : ℕ → Bytes → Bytes → S → Option (TraverseResult × S)
      traverse fuel start_node order s = walked (walk fuel order (start_walk start_node) s)
