-- ===== src/Overlay/Traverse/Halting.antt =====
-- The loop of Traverse ends, whatever the server answers.
use sochdb_go.Prelude.{
  ℕ, zero, suc, ◌≤◌, ◌≡◌, refl, sym, ap, ◌∙◌, ◌⊎◌, inl, inr, List, [], ◌∷◌, false, ◌||◌, some,
  Bool-cases, arith,
}
use sochdb_go.Prelude.Int.{ℤ}
use sochdb_go.Prelude.Lex.{Lex, Below, lex_induction}
use sochdb_go.Prelude.Bytes.{Bytes}
use sochdb_go.Overlay.{Kv}
use sochdb_go.Overlay.Traverse.{
  GraphReader, QueueItem, Walk, TraverseResult, too_deep, is_visited, pop, expand, round, walk,
  start_walk, traverse,
}
use sochdb_go.Overlay.Traverse.Levels.{
  levels, at_level, open_levels, at_level-pop, follow_scan-at_level, to_go-next, open_levels-popped,
}

module _ (reader : GraphReader) {S E : Type 0} (kv : Kv S E) (namespace : Bytes)
    (max_depth : ℤ) where
  expand-Below :
      (current : QueueItem) (rest items : List QueueItem) (w : Walk) (s : S)
      → ((i : ℕ) → at_level max_depth i (current ∷ rest) ≡ at_level max_depth i items)
      → too_deep current.depth max_depth ≡ false
      → Below
          (levels max_depth)
          (open_levels max_depth
            (levels max_depth)
            (expand reader kv namespace current rest w s).0.frontier)
          (open_levels max_depth (levels max_depth) items)
  unfolding expand
  expand-Below current rest items w s popped shallow =
      open_levels-popped max_depth current rest items _ popped (λ i above.
        let next = to_go-next max_depth current.depth shallow in
        follow_scan-at_level max_depth reader i current.depth _ _ (omega arith))

  round-Below :
      (current : QueueItem) (rest items : List QueueItem) (w : Walk) (s : S)
      → ((i : ℕ) → at_level max_depth i (current ∷ rest) ≡ at_level max_depth i items)
      → Below
          (levels max_depth)
          (open_levels max_depth
            (levels max_depth)
            (round reader kv namespace max_depth (current, rest) w s).0.frontier)
          (open_levels max_depth (levels max_depth) items)
  unfolding round
  round-Below current rest items w s popped =
      elim (Bool-cases (too_deep current.depth max_depth || is_visited current.node_id w.visited)) [
        | inl e ↦
            rw e (open_levels-popped max_depth current rest items rest popped (λ i above. refl))
        | inr e ↦ rw e (expand-Below current rest items w s popped (ground arith))
      ]

  -- The loop from `w` on ends with one walk, for all fuel from some number on.
  abbrev Halts : Bytes → Walk → S → Type 0
  Halts order w s =
      (enough : ℕ) × (done : Walk × S) × ((fuel : ℕ)
        → enough ≤ fuel
        → walk reader kv namespace max_depth fuel order w s ≡ some done)

  List-cases :
      (items : List QueueItem)
      → (items ≡ []) ⊎ ((item : QueueItem) × (rest : List QueueItem) × (items ≡ item ∷ rest))
  List-cases [] = inl refl
  List-cases (item ∷ items) = inr (item, items, refl)

  walk-end :
      (fuel : ℕ) (order : Bytes) (w : Walk) (s : S)
      → w.frontier ≡ []
      → walk reader kv namespace max_depth fuel order w s ≡ some (w, s)
  unfolding walk
  walk-end zero order w s e = rw e refl
  walk-end (suc fuel) order w s e = rw e refl

  walk-round :
      (order : Bytes) (w : Walk) (s : S) (item : QueueItem) (items : List QueueItem)
      → w.frontier ≡ item ∷ items
      → Halts order
          (round reader kv namespace max_depth (pop order item items) w s).0
          (round reader kv namespace max_depth (pop order item items) w s).1
      → Halts order w s
  unfolding walk round expand
  walk-round order w s item items e (enough, done, h) =
      (suc enough, done, λ fuel large. more fuel large)
    where
      more :
          (fuel : ℕ)
          → suc enough ≤ fuel
          → walk reader kv namespace max_depth fuel order w s ≡ some done
      more zero large = absurd (omega arith)
      more (suc fuel) large = rw e (h fuel (omega arith))

  walk-Halts :
      (order : Bytes) (v : Lex (levels max_depth)) (w : Walk) (s : S)
      → open_levels max_depth (levels max_depth) w.frontier ≡ v
      → Halts order w s
  walk-Halts order =
      lex_induction (levels max_depth)
        (λ v.
          (w : Walk) (s : S)
          → open_levels max_depth (levels max_depth) w.frontier ≡ v
          → Halts order w s)
        (λ v later w s e. elim (List-cases w.frontier) [
          | inl ended ↦ (0, (w, s), λ fuel large. walk-end fuel order w s ended)
          | inr (item, items, is) ↦
              let lower =
                round-Below (pop order item items).0 (pop order item items).1 w.frontier w s (λ i.
                  at_level-pop max_depth i order item items ∙ sym (ap (at_level max_depth i) is)) in
              walk-round order w s item items is (later _ (rw e at lower) _ _ refl)
        ])

  -- Whatever the connection answers, and whatever the node, the order and the depth are: there is a
  -- number of rounds within which the loop of Traverse ends, and all larger numbers give the same
  -- result.
  pub traverse_halts :
      (start_node order : Bytes) (s : S)
      → (enough : ℕ) × (done : TraverseResult × S) × ((fuel : ℕ)
          → enough ≤ fuel
          → traverse reader kv namespace max_depth fuel start_node order s ≡ some done)
  unfolding traverse
  traverse_halts start_node order s =
      let (enough, (w, s'), h) = walk-Halts order _ (start_walk start_node) s refl in
      (
        enough,
        (record { nodes = w.nodes; edges = w.edges }, s'),
        λ fuel large. rw (h fuel large) refl,
      )
