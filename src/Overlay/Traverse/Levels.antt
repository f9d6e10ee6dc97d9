-- ===== src/Overlay/Traverse/Levels.antt =====
-- The items of the frontier of Traverse, counted by the levels that they may still open.
use sochdb_go.Prelude.{
  ℕ, zero, suc, ◌+◌, ◌-◌, ◌≤◌, ◌<◌, ◌≡◌, refl, ◌∙◌, inl, inr, List, [], ◌∷◌, ◌++◌, false, Option,
  none, some, Bool-cases, ◌==◌, if◌then◌else◌, arith,
}
use sochdb_go.Prelude.Int.{ℤ, pos, negsuc}
use sochdb_go.Prelude.Lex.{Lex, Below}
use sochdb_go.Prelude.Result.{Result, ok, err}
use sochdb_go.Prelude.Bytes.{Bytes, codes}
use sochdb_go.Prelude.Bytes.Order.{bytes_eq}
use sochdb_go.Wire.Entries.{KeyValue}
use sochdb_go.Overlay.Graph.{GraphEdge}
use sochdb_go.Overlay.Traverse.{
  GraphReader, QueueItem, Walk, too_deep, is_visited, pop_last, pop, follow_edge, follow_edges,
  follow_scan,
}

-- How many more levels an item at a depth may open.
abbrev pub to_go : ℤ → ℕ → ℕ
to_go (pos max_depth) depth = suc max_depth - depth
to_go (negsuc n) depth = 0

module _ (max_depth : ℤ) where
  -- The items with `level` more levels.
  abbrev pub at_level : ℕ → List QueueItem → ℕ
  at_level level [] = 0
  at_level level (item ∷ items) =
      (if to_go max_depth item.depth == level then 1 else 0) + at_level level items

  abbrev pub open_levels : (n : ℕ) → List QueueItem → Lex n
  open_levels zero items = tt
  open_levels (suc n) items = (at_level n items, open_levels n items)

  open_levels-Below :
      (n level : ℕ) (items items' : List QueueItem)
      → level < n
      → at_level level items' < at_level level items
      → ((i : ℕ) → level < i → at_level i items' ≡ at_level i items)
      → Below n (open_levels n items') (open_levels n items)
  open_levels-Below zero level items items' h fewer same = absurd (omega arith)
  open_levels-Below (suc n) level items items' h fewer same = elim (Bool-cases (level == n)) [
    | inl e ↦ let e' : level ≡ n = ground arith in inl (rw e' at fewer)
    | inr e ↦
        let lower : level < n = ground arith in
        inr (same n lower, open_levels-Below n level items items' lower fewer same)
  ]

  at_level-append :
      (level : ℕ) (items items' : List QueueItem)
      → at_level level (items ++ items') ≡ at_level level items + at_level level items'
  at_level-append level [] items' = omega arith
  at_level-append level (item ∷ items) items' = omega (arith, at_level-append level items items')

  at_level-pop_last :
      (level : ℕ) (item : QueueItem) (items : List QueueItem)
      → at_level level ((pop_last item items).0 ∷ (pop_last item items).1)
        ≡ at_level level (item ∷ items)
  unfolding pop_last
  at_level-pop_last level item [] = refl
  at_level-pop_last level item (next ∷ items) = omega (arith, at_level-pop_last level next items)

  pub at_level-pop :
      (level : ℕ) (order : Bytes) (item : QueueItem) (items : List QueueItem)
      → at_level level ((pop order item items).0 ∷ (pop order item items).1)
        ≡ at_level level (item ∷ items)
  unfolding pop
  at_level-pop level order item items = elim (Bool-cases (bytes_eq order (codes "bfs"))) [
    | inl e ↦ rw e refl
    | inr e ↦ rw e (at_level-pop_last level item items)
  ]

  module _ (reader : GraphReader) where
    follow_edge-at_level :
        (level depth : ℕ) (o : Option GraphEdge) (w : Walk)
        → to_go max_depth (suc depth) < level
        → at_level level (follow_edge reader depth o w).frontier ≡ at_level level w.frontier
    unfolding follow_edge
    follow_edge-at_level level depth none w h = refl
    follow_edge-at_level level depth (some edge) w h =
        elim (Bool-cases (is_visited edge.to_id w.visited)) [
          | inl e ↦ rw e refl
          | inr e ↦
              rw
                (
                  e,
                  at_level-append level w.frontier
                      (record { node_id = edge.to_id; depth = suc depth } ∷ []),
                )
                (ground arith)
        ]

    follow_edges-at_level :
        (level depth : ℕ) (results : List KeyValue) (w : Walk)
        → to_go max_depth (suc depth) < level
        → at_level level (follow_edges reader depth results w).frontier ≡ at_level level w.frontier
    unfolding follow_edges
    follow_edges-at_level level depth [] w h = refl
    follow_edges-at_level level depth (kv ∷ results) w h =
        follow_edges-at_level level depth results
          (follow_edge reader depth (reader.unmarshal_edge kv.value) w) h
        ∙ follow_edge-at_level level depth (reader.unmarshal_edge kv.value) w h

    pub follow_scan-at_level :
        {E : Type 0} (level depth : ℕ) (r : Result E (List KeyValue)) (w : Walk)
        → to_go max_depth (suc depth) < level
        → at_level level (follow_scan reader depth r w).frontier ≡ at_level level w.frontier
    unfolding follow_scan
    follow_scan-at_level level depth (err e) w h = refl
    follow_scan-at_level level depth (ok results) w h =
        follow_edges-at_level level depth results w h

abbrev pub levels : ℤ → ℕ
levels (pos max_depth) = suc (suc max_depth)
levels (negsuc n) = 1

pub to_go-levels : (max_depth : ℤ) (depth : ℕ) → to_go max_depth depth < levels max_depth
to_go-levels (pos max_depth) depth = omega arith
to_go-levels (negsuc n) depth = omega arith

-- Behind the guard, one level more has fewer levels to go.
pub to_go-next :
    (max_depth : ℤ) (depth : ℕ)
    → too_deep depth max_depth ≡ false
    → to_go max_depth (suc depth) < to_go max_depth depth
unfolding too_deep
to_go-next (pos max_depth) depth h = ground arith
to_go-next (negsuc n) depth h = absurd (cc)

-- A frontier that lost its item `current` and got only items with fewer levels to go open_levelss lower.
pub open_levels-popped :
    (max_depth : ℤ) (current : QueueItem) (rest items items' : List QueueItem)
    → ((i : ℕ) → at_level max_depth i (current ∷ rest) ≡ at_level max_depth i items)
    → ((i : ℕ)
        → to_go max_depth current.depth ≤ i
        → at_level max_depth i items' ≡ at_level max_depth i rest)
    → Below
        (levels max_depth)
        (open_levels max_depth (levels max_depth) items')
        (open_levels max_depth (levels max_depth) items)
open_levels-popped max_depth current rest items items' popped kept =
    open_levels-Below max_depth (levels max_depth) (to_go max_depth current.depth) items items'
      (to_go-levels max_depth current.depth)
      (let l : ℕ = to_go max_depth current.depth in
        let same_l = kept l (omega arith) in let popped_l = popped l in ground arith)
      (λ i above. let kept_i = kept i (omega arith) in let popped_i = popped i in ground arith)
