-- ===== src/Overlay/Traverse/Complete.antt =====
-- Breadth-first, Traverse misses nothing.
use sochdb_go.Prelude.{
  ℕ, suc, ◌≤◌, ◌≡◌, refl, sym, ap, inl, inr, In, List, [], ◌∷◌, false, some, arith,
}
use mathlib.Core.Path.{subst}
use sochdb_go.Prelude.Int.{ℤ}
use sochdb_go.Prelude.Bytes.{Bytes, codes}
use sochdb_go.Prelude.Bytes.Order.{bytes_eq}
use sochdb_go.Overlay.{Kv}
use sochdb_go.Overlay.Graph.{GraphNode, GraphEdge}
use sochdb_go.Overlay.Traverse.{
  GraphReader, QueueItem, Walk, TraverseResult, too_deep, is_visited, pop, round, start_walk,
  traverse,
}
use sochdb_go.Overlay.Traverse.Steps.{SteadyKv, round-cases}
use sochdb_go.Overlay.Traverse.Frontier.{too_deep-le}
use sochdb_go.Overlay.Traverse.Known.{Covered, Known, Complete, dropped-Known, expanded-Known}
use sochdb_go.Overlay.Traverse.Reach.{Reach, NodeWithin, EdgeWithin, walk_invariant, walked-some}

pop_bfs : (item : QueueItem) (items : List QueueItem) → pop (codes "bfs") item items ≡ (item, items)
unfolding pop bytes_eq
pop_bfs item items = refl

module _ (reader : GraphReader) {S E : Type 0} {kv : Kv S E} (namespace : Bytes)
    (steady : SteadyKv kv) (max_depth : ℤ) (start_node : Bytes) where
  round-Complete :
      (w : Walk) (s : S) (item : QueueItem) (items : List QueueItem)
      → w.frontier ≡ item ∷ items
      → Complete reader namespace steady max_depth start_node w
      → Complete reader namespace steady max_depth start_node
          (round reader kv namespace max_depth (pop (codes "bfs") item items) w s).0
  round-Complete w s item items is (seen, level, p) =
      rw (pop_bfs item items) (elim (round-cases reader namespace steady max_depth item items w s) [
        | inl (why, dropped) ↦
            subst (Complete reader namespace steady max_depth start_node) (sym dropped) (
              seen,
              level,
              dropped-Known reader namespace steady max_depth start_node w seen level p item items
                  is why,
            )
        | inr (shallow, grew) ↦
            subst (Complete reader namespace steady max_depth start_node) (sym grew) (
              item ∷ seen,
              item.depth,
              expanded-Known reader namespace steady max_depth start_node w seen level p item items
                  is,
            )
      ])

  start-Known : Known reader namespace steady max_depth start_node (start_walk start_node) [] 0
  unfolding is_visited
  start-Known = record {
    visited_seen = λ id h. absurd (cc);
    seen_level = λ x i. absurd i;
    frontier_level = λ y i. elim i [
      | inl same ↦ let e = ap (λ (x : QueueItem). x.depth) same in (omega arith, omega arith)
      | inr i' ↦ absurd i'
    ];
    rising = ((λ y i. absurd i), tt);
    start_covered =
        inr (record { node_id = start_node; depth = 0 }, inr (inl refl), refl, omega arith);
    followed = λ x edge i j. absurd i;
    noted = λ x node i e. absurd i;
  }

  module _ (w : Walk) (seen : List QueueItem) (level : ℕ)
      (p : Known reader namespace steady max_depth start_node w seen level)
      (ended : w.frontier ≡ []) where
    seen-Covered :
        (id : Bytes) (bound depth : ℕ)
        → Covered reader namespace steady max_depth start_node seen w.frontier id bound
        → bound ≤ depth
        → too_deep depth max_depth ≡ false
        → (y : QueueItem) × In y seen × (y.node_id ≡ id) × (y.depth ≤ depth)
    seen-Covered id bound depth (inl deep) le shallow =
        absurd (let deeper = too_deep-le max_depth bound depth le deep in cc)
    seen-Covered id bound depth (inr (y, inl i, same, lower)) le shallow = (y, i, same, omega arith)
    seen-Covered id bound depth (inr (y, inr i, same, lower)) le shallow =
        absurd (subst (In y) ended i)

    -- A node that is reached was visited no deeper.
    reached-seen :
        (id : Bytes) (depth : ℕ)
        → Reach reader namespace steady max_depth start_node id depth
        → too_deep depth max_depth ≡ false
        → (y : QueueItem) × In y seen × (y.node_id ≡ id) × (y.depth ≤ depth)
    reached-seen id depth Reach.at_start shallow =
        seen-Covered start_node 0 0 p.start_covered (omega arith) shallow
    reached-seen id depth (Reach.along from d edge r above i) shallow =
        let (y, j, same, lower) = reached-seen from d r above in
        let (_, c) = p.followed y edge j (rw same i) in
        seen-Covered edge.to_id (suc y.depth) (suc d) c (omega arith) shallow

  -- Against a server that answers each request always alike: breadth-first, Traverse returns the
  -- record of each node, and each edge from a node, that a path of edges from the start reaches at a
  -- depth of at most the maximal one.
  pub traverse_bfs_complete :
      (fuel : ℕ) (s s' : S) (r : TraverseResult)
      → traverse reader kv namespace max_depth fuel start_node (codes "bfs") s ≡ some (r, s')
      → ((node : GraphNode)
          → NodeWithin reader namespace steady max_depth start_node node
          → In node r.nodes)
        × ((edge : GraphEdge)
            → EdgeWithin reader namespace steady max_depth start_node edge
            → In edge r.edges)
  unfolding traverse
  traverse_bfs_complete fuel s s' r h =
      let (w, e, nodes, edges) = walked-some reader kv namespace max_depth _ r s' h in
      let ((seen, level, p), ended) =
        walk_invariant reader kv namespace max_depth (codes "bfs")
          (Complete reader namespace steady max_depth start_node) round-Complete fuel _ w s s' e
          ([], 0, start-Known) in
      (
        (λ node (id, (depth, reach, shallow), there).
            let (y, i, same, _) = reached-seen w seen level p ended id depth reach shallow in
            rw nodes (p.noted y node i (rw same there))),
        (λ edge (id, (depth, reach, shallow), there).
            let (y, i, same, _) = reached-seen w seen level p ended id depth reach shallow in
            rw edges (p.followed y edge i (rw same there)).0),
      )
