-- ===== src/Overlay/Traverse/Known.antt =====
-- What each round of a breadth-first Traverse keeps.
use sochdb_go.Prelude.{
  ℕ, suc, ◌≤◌, ◌≡◌, refl, sym, ap, ◌∙◌, ◌⊎◌, inl, inr, In, List, ◌∷◌, true, some, Bool-cases, arith,
}
use mathlib.Core.Path.{subst}
use sochdb_go.Prelude.Int.{ℤ}
use sochdb_go.Prelude.Bytes.{Bytes}
use sochdb_go.Prelude.Bytes.Order.{bytes_eq, bytes_eq_iff}
use sochdb_go.Overlay.{Kv}
use sochdb_go.Overlay.Graph.{GraphNode, GraphEdge}
use sochdb_go.Overlay.Traverse.{GraphReader, QueueItem, Walk, too_deep, is_visited}
use sochdb_go.Overlay.Traverse.Steps.{
  SteadyKv, edges_of, node_of, expanded, In-append-cases, In-append_left, In-append_right,
}
use sochdb_go.Overlay.Traverse.Frontier.{
  too_deep-le, Rising, Rising-append, fresh-depth, fresh-Rising, fresh-In,
}

module _ (reader : GraphReader) {S E : Type 0} {kv : Kv S E} (namespace : Bytes)
    (steady : SteadyKv kv) (max_depth : ℤ) (start_node : Bytes) where
  -- A node that was visited (`seen` has the items that were), or stands in the frontier, at a depth
  -- of at most `bound`; or the bound itself is too deep.
  abbrev pub Covered : List QueueItem → List QueueItem → Bytes → ℕ → Type 0
  Covered seen frontier id bound =
      (too_deep bound max_depth ≡ true)
      ⊎ ((y : QueueItem) × (In y seen ⊎ In y frontier) × (y.node_id ≡ id) × (y.depth ≤ bound))

  pub record Known (w : Walk) (seen : List QueueItem) (level : ℕ) : Type 0 where
    pub visited_seen :
        (id : Bytes)
        → is_visited id w.visited ≡ true
        → (y : QueueItem) × In y seen × (y.node_id ≡ id)
    pub seen_level : (x : QueueItem) → In x seen → x.depth ≤ level
    pub frontier_level :
        (y : QueueItem) → In y w.frontier → (level ≤ y.depth) × (y.depth ≤ suc level)
    pub rising : Rising w.frontier
    pub start_covered : Covered seen w.frontier start_node 0
    pub followed :
        (x : QueueItem) (edge : GraphEdge)
        → In x seen
        → In edge (edges_of reader namespace steady x.node_id)
        → In edge w.edges × Covered seen w.frontier edge.to_id (suc x.depth)
    pub noted :
        (x : QueueItem) (node : GraphNode)
        → In x seen
        → node_of reader namespace steady x.node_id ≡ some node
        → In node w.nodes

  abbrev pub Complete : Walk → Type 0
  Complete w = (seen : List QueueItem) × (level : ℕ) × Known w seen level

  module _ (w : Walk) (seen : List QueueItem) (level : ℕ) (p : Known w seen level)
      (item : QueueItem) (items : List QueueItem) (is : w.frontier ≡ item ∷ items) where
    item_level : (level ≤ item.depth) × (item.depth ≤ suc level)
    item_level = p.frontier_level item (rw is (inl refl))

    items_level : (y : QueueItem) → In y items → (item.depth ≤ y.depth) × (y.depth ≤ suc level)
    items_level y i =
        let rising : Rising (item ∷ items) = subst Rising is p.rising in
        (rising.0 y i, (p.frontier_level y (rw is (inr i))).1)

    Covered-dropped :
        ((too_deep item.depth max_depth ≡ true) ⊎ (is_visited item.node_id w.visited ≡ true))
        → (id : Bytes) (bound : ℕ) → Covered seen w.frontier id bound
        → Covered seen items id bound
    Covered-dropped why id bound (inl deep) = inl deep
    Covered-dropped why id bound (inr (y, inl i, same, le)) = inr (y, inl i, same, le)
    Covered-dropped why id bound (inr (y, inr i, same, le)) = elim (subst (In y) is i) [
      | inr later ↦ inr (y, inr later, same, le)
      | inl this ↦
          let depth : y.depth ≡ item.depth = ap (λ (x : QueueItem). x.depth) this in
          elim why [
            | inl deep ↦ inl (too_deep-le max_depth item.depth bound (omega arith) deep)
            | inr visited ↦
                let (z, j, as') = p.visited_seen item.node_id visited in
                let z_level = p.seen_level z j in
                let (low, _) = item_level in
                inr
                  (z, inl j, as' ∙ ap (λ (x : QueueItem). x.node_id) (sym this) ∙ same, omega arith)
          ]
    ]

    pub dropped-Known :
        ((too_deep item.depth max_depth ≡ true) ⊎ (is_visited item.node_id w.visited ≡ true))
        → Known (record w { frontier = items }) seen level
    dropped-Known why = record {
      visited_seen = p.visited_seen;
      seen_level = p.seen_level;
      frontier_level = λ y i. p.frontier_level y (rw is (inr i));
      rising = (subst Rising is p.rising).1;
      start_covered = Covered-dropped why start_node 0 p.start_covered;
      followed = λ x edge i j.
          let (known, c) = p.followed x edge i j in
          (known, Covered-dropped why edge.to_id (suc x.depth) c);
      noted = p.noted;
    }

    abbrev grown : List QueueItem
    grown = (expanded reader namespace steady item items w).frontier

    Covered-grown :
        (id : Bytes) (bound : ℕ)
        → Covered seen w.frontier id bound
        → Covered (item ∷ seen) grown id bound
    Covered-grown id bound (inl deep) = inl deep
    Covered-grown id bound (inr (y, inl i, same, le)) = inr (y, inl (inr i), same, le)
    Covered-grown id bound (inr (y, inr i, same, le)) = elim (subst (In y) is i) [
      | inl this ↦ inr (y, inl (inl this), same, le)
      | inr later ↦ inr (y, inr (In-append_left y items _ later), same, le)
    ]

    seen-grown :
        (id : Bytes)
        → is_visited id (item.node_id ∷ w.visited) ≡ true
        → (y : QueueItem) × In y (item ∷ seen) × (y.node_id ≡ id)
    unfolding is_visited
    seen-grown id h = elim (Bool-cases (bytes_eq item.node_id id)) [
      | inl e ↦ (item, inl refl, (bytes_eq_iff item.node_id id).0 e)
      | inr e ↦ let (y, i, same) = p.visited_seen id (rw e at h) in (y, inr i, same)
    ]

    grown_level : (x : QueueItem) → In x (item ∷ seen) → x.depth ≤ item.depth
    grown_level x (inl same) = let e = ap (λ (y : QueueItem). y.depth) same in omega arith
    grown_level x (inr i) = let old = p.seen_level x i in let (low, _) = item_level in omega arith

    followed_item :
        (edge : GraphEdge)
        → In edge (edges_of reader namespace steady item.node_id)
        → Covered (item ∷ seen) grown edge.to_id (suc item.depth)
    followed_item edge i = elim (Bool-cases (is_visited edge.to_id (item.node_id ∷ w.visited))) [
      | inl visited ↦
          let (y, j, same) = seen-grown edge.to_id visited in
          let level = grown_level y j in inr (y, inl j, same, omega arith)
      | inr unseen ↦ inr (
        record { node_id = edge.to_id; depth = suc item.depth },
        inr (
            In-append_right _ items _
              (fresh-In edge (item.node_id ∷ w.visited) item.depth _ i unseen)),
        refl,
        omega arith,
      )
    ]

    pub expanded-Known :
        Known (expanded reader namespace steady item items w) (item ∷ seen) item.depth
    expanded-Known = record {
      visited_seen = seen-grown;
      seen_level = grown_level;
      frontier_level = λ y i. elim (In-append-cases y items _ i) [
        | inl old ↦
            let (low, high) = items_level y old in let (l, _) = item_level in (low, omega arith)
        | inr new ↦ let e = fresh-depth y _ item.depth _ new in (omega arith, omega arith)
      ];
      rising =
          Rising-append items _ (subst Rising is p.rising).1 (fresh-Rising _ item.depth _)
            (λ x y i j.
              let (_, high) = items_level x i in
              let (low, _) = item_level in let e = fresh-depth y _ item.depth _ j in omega arith);
      start_covered = Covered-grown start_node 0 p.start_covered;
      followed = λ x edge i j. elim i [
        | inl same ↦
            let j' =
              subst (λ (y : QueueItem). In edge (edges_of reader namespace steady y.node_id)) same
                j in
            (
              In-append_right edge w.edges _ j',
              subst (λ (y : QueueItem). Covered (item ∷ seen) grown edge.to_id (suc y.depth))
                  (sym same) (followed_item edge j'),
            )
        | inr old ↦
            let (known, c) = p.followed x edge old j in
            (In-append_left edge w.edges _ known, Covered-grown edge.to_id (suc x.depth) c)
      ];
      noted = λ x node i e. elim i [
        | inl same ↦ In-append_right node w.nodes _ (
            rw (sym (ap (λ (y : QueueItem). node_of reader namespace steady y.node_id) same) ∙ e)
              (inl refl))
        | inr old ↦ In-append_left node w.nodes _ (p.noted x node old e)
      ];
    }
