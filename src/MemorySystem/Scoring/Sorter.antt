-- ===== src/MemorySystem/Scoring/Sorter.antt =====
-- An insertion sort by falling score, over whole numbers in place of floats.
use sochdb_go.Prelude.{
  ℕ, ◌+◌, ◌*◌, ◌/◌, ◌-◌, ◌==◌, ◌≡◌, refl, ap, ◌∙◌, ◌⊎◌, inl, inr, In, [], ◌∷◌, false, none, some,
  Bool-cases, if◌then◌else◌, length, ltb, arith,
}
use sochdb_go.Prelude.Int.{ℤ, pos, negsuc}
use sochdb_go.Prelude.Bytes.{Bytes}
use sochdb_go.Prelude.Bytes.Order.{bytes_eq}
use sochdb_go.Prelude.Maps.{Dict, lookup, DistinctKeys, bytes_eq_sym}
use sochdb_go.MemorySystem.{Reals}
use sochdb_go.MemorySystem.Scoring.{ScoreEnv}
use sochdb_go.MemorySystem.Scoring.Ranks.{FallingScores, LawfulScores}

unfoldable pub insert_score : Bytes × ℕ → Dict ℕ → Dict ℕ
insert_score (k, x) [] = (k, x) ∷ []
insert_score (k, x) ((j, y) ∷ l) =
    let rest = insert_score (k, x) l in if ltb x y then (j, y) ∷ rest else (k, x) ∷ ((j, y) ∷ l)

unfoldable pub sort_scores : Dict ℕ → Dict ℕ
sort_scores [] = []
sort_scores (e ∷ l) = insert_score e (sort_scores l)

abbrev whole_of : ℤ → ℕ
whole_of (pos n) = n
whole_of (negsuc n) = 0

abbrev pub whole_reals : Reals ℕ
whole_reals = record {
  zero_real = 0;
  half = 1;
  one = 2;
  of_int = whole_of;
  plus = λ x y. x + y;
  minus = λ x y. x - y;
  times = λ x y. x * y;
  over = λ x y. (1000 * x) / y;
  log = λ x. x;
  sqrt = λ x. x;
  equal = λ x y. x == y;
  above = λ x y. ltb y x;
}

-- `range` goes through a map in the order of its entries; all letters are small, and a text is one word.
abbrev pub whole_scoring : ScoreEnv ℕ
whole_scoring = record {
  reals = whole_reals;
  to_lower = λ t. t;
  fields = λ t. t ∷ [];
  range_texts = λ m. m;
  range_counts = λ m. m;
  range_scores = λ m. m;
  range_ids = λ m. m;
  sort_scores = sort_scores;
}

In-insert_score : (e f : Bytes × ℕ) (l : Dict ℕ) → In e (insert_score f l) → (e ≡ f) ⊎ In e l
unfolding insert_score
In-insert_score e (k, x) [] i = i
In-insert_score e (k, x) ((j, y) ∷ l) i = ground (arith, In-insert_score e (k, x) l)

insert_score-In : (e f : Bytes × ℕ) (l : Dict ℕ) → (e ≡ f) ⊎ In e l → In e (insert_score f l)
unfolding insert_score
insert_score-In e (k, x) [] i = i
insert_score-In e (k, x) ((j, y) ∷ l) i = ground (arith, insert_score-In e (k, x) l)

In-sort_scores : (e : Bytes × ℕ) (l : Dict ℕ) → In e (sort_scores l) → In e l
unfolding sort_scores
In-sort_scores e [] i = i
In-sort_scores e (f ∷ l) i = elim (In-insert_score e f (sort_scores l) i) [
  | inl h ↦ inl h
  | inr j ↦ inr (In-sort_scores e l j)
]

sort_scores-In : (e : Bytes × ℕ) (l : Dict ℕ) → In e l → In e (sort_scores l)
unfolding sort_scores
sort_scores-In e [] i = i
sort_scores-In e (f ∷ l) (inl h) = insert_score-In e f (sort_scores l) (inl h)
sort_scores-In e (f ∷ l) (inr j) = insert_score-In e f (sort_scores l) (inr (sort_scores-In e l j))

length-insert_score : (f : Bytes × ℕ) (l : Dict ℕ) → length (insert_score f l) ≡ 1 + length l
unfolding insert_score
length-insert_score (k, x) [] = refl
length-insert_score (k, x) ((j, y) ∷ l) = ground (arith, length-insert_score (k, x) l)

length-sort_scores : (l : Dict ℕ) → length (sort_scores l) ≡ length l
unfolding sort_scores
length-sort_scores [] = refl
length-sort_scores (f ∷ l) =
    omega (arith, length-insert_score f (sort_scores l), length-sort_scores l)

lookup-insert_score :
    (id k : Bytes) (x : ℕ) (l : Dict ℕ)
    → bytes_eq k id ≡ false
    → lookup id (insert_score (k, x) l) ≡ lookup id l
unfolding insert_score lookup
lookup-insert_score id k x [] apart = rw apart refl
lookup-insert_score id k x ((j, y) ∷ l) apart = ground (arith, lookup-insert_score id k x l apart)

lookup-sort_scores :
    (id : Bytes) (l : Dict ℕ) → lookup id l ≡ none → lookup id (sort_scores l) ≡ none
unfolding sort_scores lookup
lookup-sort_scores id [] h = refl
lookup-sort_scores id ((k, x) ∷ l) h = elim (Bool-cases (bytes_eq k id)) [
  | inl e ↦ absurd (let h' = rw e at h in cc)
  | inr e ↦ lookup-insert_score id k x (sort_scores l) e ∙ lookup-sort_scores id l (rw e at h)
]

insert_score-DistinctKeys :
    (k : Bytes) (x : ℕ) (l : Dict ℕ)
    → lookup k l ≡ none
    → DistinctKeys l
    → DistinctKeys (insert_score (k, x) l)
unfolding insert_score
insert_score-DistinctKeys k x [] apart d = (apart, tt)
insert_score-DistinctKeys k x ((j, y) ∷ l) apart (there, d) = elim (Bool-cases (bytes_eq j k)) [
  | inl e ↦ absurd (let h : some y ≡ none = (unfold lookup in rw e at apart) in cc)
  | inr e ↦ elim (Bool-cases (ltb x y)) [
    | inl less ↦ rw less (
      lookup-insert_score j k x l (bytes_eq_sym k j ∙ e) ∙ there,
      insert_score-DistinctKeys k x l (unfold lookup in rw e at apart) d,
    )
    | inr more ↦ rw more (apart, (there, d))
  ]
]

sort_scores-DistinctKeys : (l : Dict ℕ) → DistinctKeys l → DistinctKeys (sort_scores l)
unfolding sort_scores
sort_scores-DistinctKeys [] d = tt
sort_scores-DistinctKeys ((k, x) ∷ l) (apart, d) =
    insert_score-DistinctKeys k x (sort_scores l) (lookup-sort_scores k l apart)
      (sort_scores-DistinctKeys l d)

insert_score-Falling :
    (k : Bytes) (x : ℕ) (l : Dict ℕ)
    → FallingScores whole_scoring l
    → FallingScores whole_scoring (insert_score (k, x) l)
unfolding insert_score
insert_score-Falling k x [] falling = ((λ id y i. absurd i), tt)
insert_score-Falling k x ((j, y) ∷ l) (first, falling) = elim (Bool-cases (ltb x y)) [
  | inl less ↦ rw less (
    (λ id z i. elim (In-insert_score (id, z) (k, x) l i) [
      | inl same ↦ let e : z ≡ x = ap (λ (p : Bytes × ℕ). p.1) same in rw e (ground arith)
      | inr later ↦ first id z later
    ]),
    insert_score-Falling k x l falling,
  )
  | inr more ↦ rw more (
    (λ id z i. elim i [
      | inl same ↦ let e : z ≡ y = ap (λ (p : Bytes × ℕ). p.1) same in rw e (ground arith)
      | inr later ↦ let low = first id z later in ground arith
    ]),
    (first, falling),
  )
]

sort_scores-Falling : (l : Dict ℕ) → FallingScores whole_scoring (sort_scores l)
unfolding sort_scores
sort_scores-Falling [] = tt
sort_scores-Falling ((k, x) ∷ l) = insert_score-Falling k x (sort_scores l) (sort_scores-Falling l)

pub whole_scoring-LawfulScores : LawfulScores whole_scoring
whole_scoring-LawfulScores = record {
  In-range = λ e m i. i;
  range-In = λ e m i. i;
  In-sort = In-sort_scores;
  sort-In = sort_scores-In;
  sort_range-DistinctKeys = sort_scores-DistinctKeys;
  length-sort_range = length-sort_scores;
  sort-Falling = sort_scores-Falling;
  above_irrefl = λ x. ground arith;
}
