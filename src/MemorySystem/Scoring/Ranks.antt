-- ===== src/MemorySystem/Scoring/Ranks.antt =====
-- The ranks of rankScores.
use sochdb_go.Prelude.{
  ℕ, suc, ◌+◌, ◌≤◌, ◌<◌, ◌≡◌, refl, sym, ap, ◌∙◌, inl, inr, In, [], ◌∷◌, true, false, Option, none,
  some, Bool-cases, Option-cases, if◌then◌else◌, length, arith,
}
use sochdb_go.Prelude.Bytes.{Bytes}
use sochdb_go.Prelude.Bytes.Order.{bytes_eq, bytes_eq_iff, bytes_eq_self}
use sochdb_go.Prelude.Maps.{
  Dict, lookup, set_entry, lookup-set_entry, DistinctKeys, In-lookup, lookup-In, or_zero,
}
use sochdb_go.MemorySystem.Scoring.{ScoreEnv, number_items, fill_rank, fill_missing, rank_scores}

-- The place of a key.
abbrev position : {A : Type 0} → Bytes → Dict A → Option ℕ
position id [] = none
position id ((k, x) ∷ l) =
    if bytes_eq k id then some 0 else elim (position id l) [ none ↦ none | some n ↦ some (suc n) ]

abbrev rank_at : ℕ → Option ℕ → Option ℕ → Option ℕ
rank_at i none old = old
rank_at i (some n) old = some (suc (i + n))

not_there :
    {A : Type 0} (k id : Bytes) (x : A) (l : Dict A)
    → lookup k l ≡ none
    → DistinctKeys l
    → In (id, x) l
    → bytes_eq k id ≡ false
not_there k id x l apart d i = elim (Bool-cases (bytes_eq k id)) [
  | inl e ↦
      let same : k ≡ id = (bytes_eq_iff k id).0 e in
      let there = In-lookup id x l d i in absurd (let gone = rw same at apart in cc)
  | inr e ↦ e
]

position-absent : {A : Type 0} (id : Bytes) (l : Dict A) → lookup id l ≡ none → position id l ≡ none
unfolding lookup
position-absent id [] h = refl
position-absent id ((k, x) ∷ l) h = elim (Bool-cases (bytes_eq k id)) [
  | inl e ↦ absurd (let h' = rw e at h in cc)
  | inr e ↦ rw (e, position-absent id l (rw e at h)) refl
]

position-there :
    {A : Type 0} (id : Bytes) (x : A) (l : Dict A)
    → In (id, x) l
    → (n : ℕ) × (position id l ≡ some n) × (n < length l)
position-there id x [] i = absurd i
position-there id x ((k, y) ∷ l) i = elim (Bool-cases (bytes_eq k id)) [
  | inl e ↦ (0, rw e refl, omega arith)
  | inr e ↦ elim i [
    | inl same ↦ absurd (
        let self = bytes_eq_self id in
        let same' : id ≡ k = ap (λ (p : Bytes × _). p.0) same in let e' = rw (sym same') at e in cc)
    | inr j ↦
        let (n, at_n, small) = position-there id x l j in (suc n, rw (e, at_n) refl, omega arith)
  ]
]

number_items-lookup :
    {F : Type 0} (i : ℕ) (l : Dict F) (ranks : Dict ℕ) (id : Bytes)
    → DistinctKeys l
    → lookup id (number_items i l ranks) ≡ rank_at i (position id l) (lookup id ranks)
unfolding number_items
number_items-lookup i [] ranks id d = refl
number_items-lookup i ((k, x) ∷ l) ranks id (apart, d) =
    number_items-lookup (suc i) l (set_entry k (suc i) ranks) id d
    ∙ elim (Bool-cases (bytes_eq k id)) [
      | inl e ↦
          let same : k ≡ id = (bytes_eq_iff k id).0 e in
          let gone : position id l ≡ none = position-absent id l (rw same at apart) in
          rw (gone, lookup-set_entry k (suc i) ranks id) (rw e (ap some (omega arith)))
      | inr e ↦ rw (lookup-set_entry k (suc i) ranks id) (elim (Option-cases (position id l)) [
        | inl gone ↦ rw (gone, e) refl
        | inr (n, there) ↦ rw (there, e) (ap some (omega arith))
      ])
    ]

fill_missing-same :
    {F : Type 0} (max_rank : ℕ) (scores : Dict F) (ranks : Dict ℕ)
    → ((id : Bytes) (x : F) → In (id, x) scores → (n : ℕ) × (lookup id ranks ≡ some n))
    → fill_missing max_rank scores ranks ≡ ranks
unfolding fill_missing
fill_missing-same max_rank [] ranks all = refl
fill_missing-same max_rank ((id, x) ∷ scores) ranks all =
    let (n, there) = all id x (inl refl) in
    ap (λ o. fill_missing max_rank scores (fill_rank o id max_rank ranks)) there
    ∙ fill_missing-same max_rank scores ranks (λ id' y i. all id' y (inr i))

module _ {F : Type 0} (env : ScoreEnv F) where
  -- No later score is above an earlier one.
  abbrev pub FallingScores : Dict F → Type 0
  FallingScores [] = Unit {0}
  FallingScores ((id, x) ∷ l) =
      ((id' : Bytes) (y : F) → In (id', y) l → env.reals.above y x ≡ false) × FallingScores l

  -- `range` goes through each entry of a map once, sort.Slice orders the entries and keeps each of
  -- them, and no number is above itself.
  pub record LawfulScores : Type 0 where
    pub In-range : (e : Bytes × F) (m : Dict F) → In e (env.range_scores m) → In e m
    pub range-In : (e : Bytes × F) (m : Dict F) → In e m → In e (env.range_scores m)
    pub In-sort : (e : Bytes × F) (m : Dict F) → In e (env.sort_scores m) → In e m
    pub sort-In : (e : Bytes × F) (m : Dict F) → In e m → In e (env.sort_scores m)
    pub sort_range-DistinctKeys :
        (m : Dict F) → DistinctKeys m → DistinctKeys (env.sort_scores (env.range_scores m))
    pub length-sort_range : (m : Dict F) → length (env.sort_scores (env.range_scores m)) ≡ length m
    pub sort-Falling : (m : Dict F) → FallingScores (env.sort_scores m)
    pub above_irrefl : (x : F) → env.reals.above x x ≡ false

  position-lt :
      ((x : F) → env.reals.above x x ≡ false)
      → (l : Dict F) (a b : Bytes) (x y : F) → FallingScores l
      → DistinctKeys l
      → In (a, x) l
      → In (b, y) l
      → env.reals.above x y ≡ true
      → (m n : ℕ) × (position a l ≡ some m) × (position b l ≡ some n) × (m < n)
  position-lt irrefl [] a b x y falling d i j up = absurd i
  position-lt irrefl ((k, z) ∷ l) a b x y (first, falling) (apart, d) (inl e) (inl f) up = absurd (
      let ex : x ≡ z = ap (λ (p : Bytes × F). p.1) e in
      let fy : y ≡ z = ap (λ (p : Bytes × F). p.1) f in
      let up' = rw (ex, fy) at up in let no = irrefl z in cc)
  position-lt irrefl ((k, z) ∷ l) a b x y (first, falling) (apart, d) (inl e) (inr j) up =
      let same : a ≡ k = ap (λ (p : Bytes × F). p.0) e in
      let (n, there, small) = position-there b y l j in
      (
        0,
        suc n,
        rw (same, bytes_eq_self k) refl,
        rw (not_there k b y l apart d j, there) refl,
        omega arith,
      )
  position-lt irrefl ((k, z) ∷ l) a b x y (first, falling) (apart, d) (inr i) (inl f) up = absurd (
      let fy : y ≡ z = ap (λ (p : Bytes × F). p.1) f in
      let up' = rw fy at up in let no = first a x i in cc)
  position-lt irrefl ((k, z) ∷ l) a b x y (first, falling) (apart, d) (inr i) (inr j) up =
      let (m, n, at_m, at_n, less) = position-lt irrefl l a b x y falling d i j up in
      (
        suc m,
        suc n,
        rw (not_there k a x l apart d i, at_m) refl,
        rw (not_there k b y l apart d j, at_n) refl,
        omega arith,
      )

  module _ (law : LawfulScores) (scores : Dict F) (distinct : DistinctKeys scores) where
    abbrev sorted : Dict F
    sorted = env.sort_scores (env.range_scores scores)

    sorted-In : (e : Bytes × F) → In e scores → In e sorted
    sorted-In e i = law.sort-In e (env.range_scores scores) (law.range-In e scores i)

    rank_scores-lookup :
        (id : Bytes) → lookup id (rank_scores env scores) ≡ rank_at 0 (position id sorted) none
    unfolding rank_scores lookup
    rank_scores-lookup id =
        let d = law.sort_range-DistinctKeys scores distinct in
        ap (lookup id) (
          fill_missing-same (suc (length scores)) (env.range_scores scores)
            (number_items 0 sorted [])
            (λ id' x i.
              let (n, there, _) =
                position-there id' x sorted (law.sort-In (id', x) (env.range_scores scores) i) in
              (suc (0 + n), number_items-lookup 0 sorted [] id' d ∙ rw there refl)))
        ∙ number_items-lookup 0 sorted [] id d

    -- The rank that reciprocalRankFusion reads.
    abbrev pub rank_of : Bytes → ℕ
    rank_of id = or_zero (lookup id (rank_scores env scores))

    -- Where `range` and sort.Slice do what they document: an id with a score has a rank from 1 to the
    -- number of scores, and a higher score has a lower rank. An id without a score has the rank 0,
    -- which is better than each of these.
    pub rank_scores_order :
        ((id : Bytes) → lookup id scores ≡ none → rank_of id ≡ 0)
        × ((id : Bytes) (x : F)
            → In (id, x) scores
            → (1 ≤ rank_of id) × (rank_of id ≤ length scores))
        × ((a b : Bytes) (x y : F)
            → In (a, x) scores
            → In (b, y) scores
            → env.reals.above x y ≡ true
            → rank_of a < rank_of b)
    rank_scores_order = (
      (λ id gone. ap or_zero (
          rank_scores-lookup id
          ∙ ap (λ o. rank_at 0 o none)
              (position-absent id sorted (elim (Option-cases (lookup id sorted)) [
                | inl e ↦ e
                | inr (x, e) ↦
                    let i =
                      law.In-range (id, x) scores
                        (law.In-sort (id, x) (env.range_scores scores) (lookup-In id x sorted e)) in
                    absurd (let there = In-lookup id x scores distinct i in cc)
              ])))),
      (λ id x i.
          let (n, there, small) = position-there id x sorted (sorted-In (id, x) i) in
          let e : rank_of id ≡ suc (0 + n) =
            ap or_zero (rank_scores-lookup id ∙ ap (λ o. rank_at 0 o none) there) in
          let same = law.length-sort_range scores in (omega arith, omega arith)),
      (λ a b x y i j up.
          let (m, n, at_m, at_n, less) =
            position-lt law.above_irrefl sorted a b x y (law.sort-Falling (env.range_scores scores))
              (law.sort_range-DistinctKeys scores distinct) (sorted-In (a, x) i)
              (sorted-In (b, y) j) up in
          let ea : rank_of a ≡ suc (0 + m) =
            ap or_zero (rank_scores-lookup a ∙ ap (λ o. rank_at 0 o none) at_m) in
          let eb : rank_of b ≡ suc (0 + n) =
            ap or_zero (rank_scores-lookup b ∙ ap (λ o. rank_at 0 o none) at_n) in
          omega arith),
    )
