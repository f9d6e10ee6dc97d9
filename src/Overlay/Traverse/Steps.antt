-- ===== src/Overlay/Traverse/Steps.antt =====
-- What one round of Traverse adds, against a server that answers each request always alike.
use sochdb_go.Prelude.{
  ℕ, suc, ◌≡◌, refl, sym, ap, ◌∙◌, ◌⊎◌, inl, inr, In, List, [], ◌∷◌, ◌++◌, append_assoc, append-nil,
  true, false, Option, none, some, Bool-cases, if◌then◌else◌,
}
use sochdb_go.Prelude.Int.{ℤ}
use sochdb_go.Prelude.Result.{Result, ok, err}
use sochdb_go.Prelude.Bytes.{Bytes}
use sochdb_go.Wire.Entries.{KeyValue}
use sochdb_go.Overlay.{Kv}
use sochdb_go.Overlay.Graph.{GraphNode, GraphEdge, node_key, edge_prefix}
use sochdb_go.Overlay.Traverse.{
  GraphReader, QueueItem, Walk, too_deep, is_visited, append_node, read_node, follow_edge,
  follow_edges, follow_scan, expand, round,
}

-- Get and Scan have one answer for each key and prefix.
pub record SteadyKv {S E : Type 0} (kv : Kv S E) : Type 0 where
  pub fetch : Bytes → Result E (Option Bytes)
  pub listing : Bytes → Result E (List KeyValue)
  pub get_is : (k : Bytes) (s : S) → (kv.kv_get k s).0 ≡ fetch k
  pub scan_is : (p : Bytes) (s : S) → (kv.kv_scan p s).0 ≡ listing p

abbrev pub one_or_none : {A : Type 0} → Option A → List A
one_or_none none = []
one_or_none (some a) = a ∷ []

-- The new items of a frontier, for edges from a node at `depth`.
abbrev pub fresh : List Bytes → ℕ → List GraphEdge → List QueueItem
fresh visited depth [] = []
fresh visited depth (edge ∷ edges) =
    if is_visited edge.to_id visited
    then fresh visited depth edges
    else record { node_id = edge.to_id; depth = suc depth } ∷ fresh visited depth edges

append_node_lem :
    (o : Option GraphNode) (nodes : List GraphNode) → append_node o nodes ≡ nodes ++ one_or_none o
append_node_lem none nodes = sym (append-nil nodes)
append_node_lem (some node) nodes = refl

module _ (reader : GraphReader) where
  -- The edges that can be read among the results of a scan.
  abbrev pub edges_among : List KeyValue → List GraphEdge
  edges_among [] = []
  edges_among (kv ∷ results) = one_or_none (reader.unmarshal_edge kv.value) ++ edges_among results

  abbrev pub scanned_edges : {E : Type 0} → Result E (List KeyValue) → List GraphEdge
  scanned_edges (err e) = []
  scanned_edges (ok results) = edges_among results

  abbrev pub node_in : {E : Type 0} → Result E (Option Bytes) → Option GraphNode
  node_in (err e) = none
  node_in (ok none) = none
  node_in (ok (some text)) = reader.unmarshal_node text

  abbrev pub with_edges : ℕ → List GraphEdge → Walk → Walk
  with_edges depth edges w = record w {
    edges = w.edges ++ edges;
    frontier = w.frontier ++ fresh w.visited depth edges;
  }

  follow_edge_lem :
      (depth : ℕ) (o : Option GraphEdge) (w : Walk)
      → follow_edge reader depth o w ≡ with_edges depth (one_or_none o) w
  unfolding follow_edge
  follow_edge_lem depth none w = rw (append-nil w.edges, append-nil w.frontier) refl
  follow_edge_lem depth (some edge) w = elim (Bool-cases (is_visited edge.to_id w.visited)) [
    | inl e ↦ rw (e, append-nil w.frontier) refl
    | inr e ↦ rw e refl
  ]

  fresh-append :
      (visited : List Bytes) (depth : ℕ) (a b : List GraphEdge)
      → fresh visited depth (a ++ b) ≡ fresh visited depth a ++ fresh visited depth b
  fresh-append visited depth [] b = refl
  fresh-append visited depth (edge ∷ a) b = elim (Bool-cases (is_visited edge.to_id visited)) [
    | inl e ↦ rw e (fresh-append visited depth a b)
    | inr e ↦ rw (e, fresh-append visited depth a b) refl
  ]

  with_edges-append :
      (depth : ℕ) (a b : List GraphEdge) (w : Walk)
      → with_edges depth b (with_edges depth a w) ≡ with_edges depth (a ++ b) w
  with_edges-append depth a b w =
      rw
        (
          fresh-append w.visited depth a b,
          append_assoc w.edges a b,
          append_assoc w.frontier (fresh w.visited depth a) (fresh w.visited depth b),
        )
        refl

  follow_edges_lem :
      (depth : ℕ) (results : List KeyValue) (w : Walk)
      → follow_edges reader depth results w ≡ with_edges depth (edges_among results) w
  unfolding follow_edges
  follow_edges_lem depth [] w = rw (append-nil w.edges, append-nil w.frontier) refl
  follow_edges_lem depth (kv ∷ results) w =
      follow_edges_lem depth results (follow_edge reader depth (reader.unmarshal_edge kv.value) w)
      ∙ ap (with_edges depth (edges_among results))
          (follow_edge_lem depth (reader.unmarshal_edge kv.value) w)
      ∙ with_edges-append depth (one_or_none (reader.unmarshal_edge kv.value)) (edges_among results)
          w

  follow_scan_lem :
      {E : Type 0} (depth : ℕ) (r : Result E (List KeyValue)) (w : Walk)
      → follow_scan reader depth r w ≡ with_edges depth (scanned_edges r) w
  unfolding follow_scan
  follow_scan_lem depth (err e) w = rw (append-nil w.edges, append-nil w.frontier) refl
  follow_scan_lem depth (ok results) w = follow_edges_lem depth results w

  read_node_lem :
      {E : Type 0} (r : Result E (Option Bytes)) (nodes : List GraphNode)
      → read_node reader r nodes ≡ nodes ++ one_or_none (node_in r)
  unfolding read_node
  read_node_lem (err e) nodes = sym (append-nil nodes)
  read_node_lem (ok none) nodes = sym (append-nil nodes)
  read_node_lem (ok (some text)) nodes = append_node_lem (reader.unmarshal_node text) nodes

  module _ {S E : Type 0} {kv : Kv S E} (namespace : Bytes) (steady : SteadyKv kv) where
    -- The edges that the server has from a node.
    abbrev pub edges_of : Bytes → List GraphEdge
    edges_of id = scanned_edges (steady.listing (edge_prefix namespace id))

    abbrev pub node_of : Bytes → Option GraphNode
    node_of id = node_in (steady.fetch (node_key namespace id))

    abbrev pub expanded : QueueItem → List QueueItem → Walk → Walk
    expanded current rest w = record {
      visited = current.node_id ∷ w.visited;
      nodes = w.nodes ++ one_or_none (node_of current.node_id);
      edges = w.edges ++ edges_of current.node_id;
      frontier =
          rest ++ fresh (current.node_id ∷ w.visited) current.depth (edges_of current.node_id);
    }

    pub expand_lem :
        (current : QueueItem) (rest : List QueueItem) (w : Walk) (s : S)
        → (expand reader kv namespace current rest w s).0 ≡ expanded current rest w
    unfolding expand
    expand_lem current rest w s =
        follow_scan_lem current.depth _ _
        ∙ rw
            (
              steady.scan_is (edge_prefix namespace current.node_id)
                  (kv.kv_get (node_key namespace current.node_id) s).1,
              steady.get_is (node_key namespace current.node_id) s,
              read_node_lem (steady.fetch (node_key namespace current.node_id)) w.nodes,
            )
            refl

    -- A round drops the item, which is too deep or visited, or expands it.
    pub round-cases :
        (max_depth : ℤ) (current : QueueItem) (rest : List QueueItem) (w : Walk) (s : S)
        → (((too_deep current.depth max_depth ≡ true)
              ⊎ (is_visited current.node_id w.visited ≡ true))
            × ((round reader kv namespace max_depth (current, rest) w s).0
                ≡ record w { frontier = rest }))
          ⊎ ((too_deep current.depth max_depth ≡ false)
              × ((round reader kv namespace max_depth (current, rest) w s).0
                  ≡ expanded current rest w))
    unfolding round
    round-cases max_depth current rest w s = elim (Bool-cases (too_deep current.depth max_depth)) [
      | inl deep ↦ inl (inl deep, rw deep refl)
      | inr shallow ↦ elim (Bool-cases (is_visited current.node_id w.visited)) [
        | inl seen ↦ inl (inr seen, rw (shallow, seen) refl)
        | inr unseen ↦ inr (shallow, rw (shallow, unseen) (expand_lem current rest w s))
      ]
    ]

pub In-append-cases : {A : Type 0} (a : A) (xs ys : List A) → In a (xs ++ ys) → In a xs ⊎ In a ys
In-append-cases a [] ys h = inr h
In-append-cases a (x ∷ xs) ys (inl e) = inl (inl e)
In-append-cases a (x ∷ xs) ys (inr h) = elim (In-append-cases a xs ys h) [
  | inl left ↦ inl (inr left)
  | inr right ↦ inr right
]

pub In-append_left : {A : Type 0} (a : A) (xs ys : List A) → In a xs → In a (xs ++ ys)
In-append_left a [] ys h = absurd h
In-append_left a (x ∷ xs) ys (inl e) = inl e
In-append_left a (x ∷ xs) ys (inr h) = inr (In-append_left a xs ys h)

pub In-append_right : {A : Type 0} (a : A) (xs ys : List A) → In a ys → In a (xs ++ ys)
In-append_right a [] ys h = h
In-append_right a (x ∷ xs) ys h = inr (In-append_right a xs ys h)

pub In-one_or_none : {A : Type 0} (a : A) (o : Option A) → In a (one_or_none o) → o ≡ some a
In-one_or_none a none h = absurd h
In-one_or_none a (some b) (inl e) = ap some (sym e)
In-one_or_none a (some b) (inr h) = absurd h

-- A fresh item is for an edge, one level down.
pub In-fresh :
    (y : QueueItem) (visited : List Bytes) (depth : ℕ) (edges : List GraphEdge)
    → In y (fresh visited depth edges)
    → (edge : GraphEdge) × In edge edges × (y ≡ record { node_id = edge.to_id; depth = suc depth })
In-fresh y visited depth [] h = absurd h
In-fresh y visited depth (edge ∷ edges) h = elim (Bool-cases (is_visited edge.to_id visited)) [
  | inl seen ↦ let (e, i, same) = In-fresh y visited depth edges (rw seen at h) in (e, inr i, same)
  | inr unseen ↦ elim (rw unseen at h) [
    | inl first ↦ (edge, inl refl, first)
    | inr later ↦ let (e, i, same) = In-fresh y visited depth edges later in (e, inr i, same)
  ]
]
