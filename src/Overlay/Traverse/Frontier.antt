-- ===== src/Overlay/Traverse/Frontier.antt =====
-- The depths in the frontier of a breadth-first Traverse.
use sochdb_go.Prelude.{
  ℕ, suc, ◌≤◌, ◌≡◌, refl, sym, ap, ◌∙◌, inl, inr, In, List, [], ◌∷◌, ◌++◌, true, false, Bool-cases,
  arith,
}
use sochdb_go.Prelude.Int.{ℤ, pos, negsuc}
use sochdb_go.Prelude.Bytes.{Bytes}
use sochdb_go.Overlay.Graph.{GraphEdge}
use sochdb_go.Overlay.Traverse.{QueueItem, too_deep, is_visited}
use sochdb_go.Overlay.Traverse.Steps.{fresh, In-append-cases, In-fresh}

pub too_deep-le :
    (max_depth : ℤ) (a b : ℕ) → a ≤ b → too_deep a max_depth ≡ true → too_deep b max_depth ≡ true
unfolding too_deep
too_deep-le (pos max_depth) a b h deep = ground arith
too_deep-le (negsuc n) a b h deep = refl

-- The depths do not fall along a frontier.
abbrev pub Rising : List QueueItem → Type 0
Rising [] = Unit {0}
Rising (x ∷ items) = ((y : QueueItem) → In y items → x.depth ≤ y.depth) × Rising items

pub Rising-append :
    (items items' : List QueueItem)
    → Rising items
    → Rising items'
    → ((x y : QueueItem) → In x items → In y items' → x.depth ≤ y.depth)
    → Rising (items ++ items')
Rising-append [] items' h k between = k
Rising-append (x ∷ items) items' (first, later) k between = (
  (λ y i. elim (In-append-cases y items items' i) [
    | inl old ↦ first y old
    | inr new ↦ between x y (inl refl) new
  ]),
  Rising-append items items' later k (λ a b i j. between a b (inr i) j),
)

pub fresh-depth :
    (y : QueueItem) (visited : List Bytes) (depth : ℕ) (edges : List GraphEdge)
    → In y (fresh visited depth edges)
    → y.depth ≡ suc depth
fresh-depth y visited depth edges i =
    let (edge, _, same) = In-fresh y visited depth edges i in ap (λ (x : QueueItem). x.depth) same

pub fresh-Rising :
    (visited : List Bytes) (depth : ℕ) (edges : List GraphEdge) → Rising (fresh visited depth edges)
fresh-Rising visited depth [] = tt
fresh-Rising visited depth (edge ∷ edges) = elim (Bool-cases (is_visited edge.to_id visited)) [
  | inl seen ↦ rw seen (fresh-Rising visited depth edges)
  | inr unseen ↦ rw unseen (
    (λ y i. let e = fresh-depth y visited depth edges i in omega arith),
    fresh-Rising visited depth edges,
  )
]

pub fresh-In :
    (edge : GraphEdge) (visited : List Bytes) (depth : ℕ) (edges : List GraphEdge)
    → In edge edges
    → is_visited edge.to_id visited ≡ false
    → In (record { node_id = edge.to_id; depth = suc depth }) (fresh visited depth edges)
fresh-In edge visited depth [] i unseen = absurd i
fresh-In edge visited depth (e ∷ edges) (inl same) unseen =
    rw (ap (λ (x : GraphEdge). is_visited x.to_id visited) (sym same) ∙ unseen)
      (inl (ap (λ (x : GraphEdge). record { node_id = x.to_id; depth = suc depth }) same))
fresh-In edge visited depth (e ∷ edges) (inr i) unseen =
    elim (Bool-cases (is_visited e.to_id visited)) [
      | inl seen ↦ rw seen (fresh-In edge visited depth edges i unseen)
      | inr other ↦ rw other (inr (fresh-In edge visited depth edges i unseen))
    ]
