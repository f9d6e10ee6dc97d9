-- ===== src/Overlay/Traverse/Reach.antt =====
-- What Traverse returns was reached.
use sochdb_go.Prelude.{
  ℕ, zero, suc, ◌≡◌, refl, sym, ap, ◌∙◌, ◌⊎◌, inl, inr, In, List, [], ◌∷◌, false, Option, none,
  some, Bool-cases,
}
use mathlib.Core.Path.{subst}
use sochdb_go.Prelude.Int.{ℤ}
use sochdb_go.Prelude.Bytes.{Bytes, codes}
use sochdb_go.Prelude.Bytes.Order.{bytes_eq}
use sochdb_go.Overlay.{Kv}
use sochdb_go.Overlay.Graph.{GraphNode, GraphEdge}
use sochdb_go.Overlay.Traverse.{
  GraphReader, QueueItem, Walk, TraverseResult, too_deep, pop_last, pop, expand, round, walk,
  start_walk, walked, traverse,
}
use sochdb_go.Overlay.Traverse.Steps.{
  SteadyKv, edges_of, node_of, expanded, round-cases, In-append-cases, In-one_or_none, In-fresh,
}

In-pop_last :
    (x item : QueueItem) (items : List QueueItem)
    → In x ((pop_last item items).0 ∷ (pop_last item items).1)
    → In x (item ∷ items)
unfolding pop_last
In-pop_last x item [] h = h
In-pop_last x item (next ∷ items) (inl e) = inr (In-pop_last x next items (inl e))
In-pop_last x item (next ∷ items) (inr (inl e)) = inl e
In-pop_last x item (next ∷ items) (inr (inr h)) = inr (In-pop_last x next items (inr h))

In-pop :
    (order : Bytes) (x item : QueueItem) (items : List QueueItem)
    → In x ((pop order item items).0 ∷ (pop order item items).1)
    → In x (item ∷ items)
unfolding pop
In-pop order x item items h = elim (Bool-cases (bytes_eq order (codes "bfs"))) [
  | inl e ↦ rw e at h
  | inr e ↦ In-pop_last x item items (rw e at h)
]

List-cases :
    (items : List QueueItem)
    → (items ≡ []) ⊎ ((item : QueueItem) × (rest : List QueueItem) × (items ≡ item ∷ rest))
List-cases [] = inl refl
List-cases (item ∷ items) = inr (item, items, refl)

module _ (reader : GraphReader) {S E : Type 0} (kv : Kv S E) (namespace : Bytes)
    (max_depth : ℤ) where
  walk-suc :
      (fuel : ℕ) (order : Bytes) (w : Walk) (s : S) (item : QueueItem) (items : List QueueItem)
      → w.frontier ≡ item ∷ items
      → walk reader kv namespace max_depth (suc fuel) order w s
        ≡ walk reader kv namespace max_depth fuel order
            (round reader kv namespace max_depth (pop order item items) w s).0
            (round reader kv namespace max_depth (pop order item items) w s).1
  unfolding walk round expand
  walk-suc fuel order w s item items e = rw e refl

  -- What each round keeps holds at the end, where the frontier is empty.
  pub walk_invariant :
      (order : Bytes) (P : Walk → Type 0)
      → ((w : Walk) (s : S) (item : QueueItem) (items : List QueueItem)
          → w.frontier ≡ item ∷ items
          → P w
          → P (round reader kv namespace max_depth (pop order item items) w s).0)
      → (fuel : ℕ) (w w' : Walk) (s s' : S)
      → walk reader kv namespace max_depth fuel order w s ≡ some (w', s')
      → P w
      → P w' × (w'.frontier ≡ [])
  unfolding walk
  walk_invariant order P keeps zero w w' s s' h p = elim (List-cases w.frontier) [
    | inl e ↦
        let same : w ≡ w' = let h' = rw e at h in cc in
        (subst P same p, ap (λ u. u.frontier) (sym same) ∙ e)
    | inr (item, items, e) ↦ absurd (let h' = rw e at h in cc)
  ]
  walk_invariant order P keeps (suc fuel) w w' s s' h p = elim (List-cases w.frontier) [
    | inl e ↦
        let same : w ≡ w' = let h' = rw e at h in cc in
        (subst P same p, ap (λ u. u.frontier) (sym same) ∙ e)
    | inr (item, items, e) ↦
        walk_invariant order P keeps fuel _ w' _ s' (sym (walk-suc fuel order w s item items e) ∙ h)
          (keeps w s item items e p)
  ]

  pub walked-some :
      (o : Option (Walk × S)) (r : TraverseResult) (s' : S)
      → walked o ≡ some (r, s')
      → (w : Walk) × (o ≡ some (w, s')) × (r.nodes ≡ w.nodes) × (r.edges ≡ w.edges)
  walked-some none r s' h = absurd (cc)
  walked-some (some (w, s)) r s' h = (w, cc, cc, cc)

module _ (reader : GraphReader) {S E : Type 0} {kv : Kv S E} (namespace : Bytes)
    (steady : SteadyKv kv) (max_depth : ℤ) (start_node : Bytes) where
  -- The nodes that stand at the end of a path of edges from the start, with its length: a path goes
  -- on from a node that is not too deep.
  pub data Reach : Bytes → ℕ → Type 0 where
    at_start : Reach start_node 0
    along :
        (id : Bytes) (depth : ℕ) (edge : GraphEdge)
        → Reach id depth
        → too_deep depth max_depth ≡ false
        → In edge (edges_of reader namespace steady id)
        → Reach edge.to_id (suc depth)

  -- A node that is reached, and not too deep.
  abbrev pub Within : Bytes → Type 0
  Within id = (depth : ℕ) × Reach id depth × (too_deep depth max_depth ≡ false)

  abbrev pub NodeWithin : GraphNode → Type 0
  NodeWithin node = (id : Bytes) × Within id × (node_of reader namespace steady id ≡ some node)

  abbrev pub EdgeWithin : GraphEdge → Type 0
  EdgeWithin edge = (id : Bytes) × Within id × In edge (edges_of reader namespace steady id)

  pub record Reached (w : Walk) : Type 0 where
    pub items : (x : QueueItem) → In x w.frontier → Reach x.node_id x.depth
    pub nodes_within : (node : GraphNode) → In node w.nodes → NodeWithin node
    pub edges_within : (edge : GraphEdge) → In edge w.edges → EdgeWithin edge

  expanded-Reached :
      (current : QueueItem) (rest : List QueueItem) (w : Walk)
      → ((x : QueueItem) → In x (current ∷ rest) → Reach x.node_id x.depth)
      → too_deep current.depth max_depth ≡ false
      → Reached w
      → Reached (expanded reader namespace steady current rest w)
  expanded-Reached current rest w reach shallow p = record {
    items = λ x i. elim (In-append-cases x rest _ i) [
      | inl old ↦ reach x (inr old)
      | inr new ↦
          let (edge, j, same) = In-fresh x _ current.depth _ new in
          subst (λ (y : QueueItem). Reach y.node_id y.depth) (sym same)
            (Reach.along current.node_id current.depth edge (reach current (inl refl)) shallow j)
    ];
    nodes_within = λ node i. elim (In-append-cases node w.nodes _ i) [
      | inl old ↦ p.nodes_within node old
      | inr new ↦ (
        current.node_id,
        (current.depth, reach current (inl refl), shallow),
        In-one_or_none node _ new,
      )
    ];
    edges_within = λ edge i. elim (In-append-cases edge w.edges _ i) [
      | inl old ↦ p.edges_within edge old
      | inr new ↦ (current.node_id, (current.depth, reach current (inl refl), shallow), new)
    ];
  }

  round-Reached :
      (order : Bytes) (w : Walk) (s : S) (item : QueueItem) (items : List QueueItem)
      → w.frontier ≡ item ∷ items
      → Reached w
      → Reached (round reader kv namespace max_depth (pop order item items) w s).0
  round-Reached order w s item items e p =
      let current : QueueItem = (pop order item items).0 in
      let rest : List QueueItem = (pop order item items).1 in
      let reach : (x : QueueItem) → In x (current ∷ rest) → Reach x.node_id x.depth =
        λ x i. p.items x (rw e (In-pop order x item items i)) in
      elim (round-cases reader namespace steady max_depth current rest w s) [
        | inl (_, dropped) ↦ subst Reached (sym dropped) (record {
          items = λ x i. reach x (inr i);
          nodes_within = p.nodes_within;
          edges_within = p.edges_within;
        })
        | inr (shallow, grown) ↦
            subst Reached (sym grown) (expanded-Reached current rest w reach shallow p)
      ]

  start-Reached : Reached (start_walk start_node)
  start-Reached = record {
    items = λ x i. elim i [
      | inl e ↦ subst (λ (y : QueueItem). Reach y.node_id y.depth) (sym e) Reach.at_start
      | inr i' ↦ absurd i'
    ];
    nodes_within = λ node i. absurd i;
    edges_within = λ edge i. absurd i;
  }

  -- Against a server that answers each request always alike, and in any order: each node that
  -- Traverse returns is the record of a node that a path of edges from the start reaches at a depth
  -- of at most the maximal one, and each edge that it returns is one from such a node.
  pub traverse_reaches :
      (order : Bytes) (fuel : ℕ) (s s' : S) (r : TraverseResult)
      → traverse reader kv namespace max_depth fuel start_node order s ≡ some (r, s')
      → ((node : GraphNode) → In node r.nodes → NodeWithin node)
        × ((edge : GraphEdge) → In edge r.edges → EdgeWithin edge)
  unfolding traverse
  traverse_reaches order fuel s s' r h =
      let (w, e, nodes, edges) = walked-some reader kv namespace max_depth _ r s' h in
      let (p, _) =
        walk_invariant reader kv namespace max_depth order Reached (round-Reached order) fuel _ w s
          s' e start-Reached in
      (
        (λ node i. p.nodes_within node (rw nodes at i)),
        (λ edge i. p.edges_within edge (rw edges at i)),
      )
