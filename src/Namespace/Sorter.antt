-- ===== src/Namespace/Sorter.antt =====
-- An insertion sort by falling score, over whole numbers in place of floats.
use sochdb_go.Prelude.{
  ℕ, ◌+◌, ◌*◌, ◌/◌, ◌≡◌, ◌⊎◌, Option, List, [], ◌∷◌, Bool-cases, inl, inr, In, ltb, ◌==◌,
  if◌then◌else◌, arith,
}
use sochdb_go.Namespace.{SearchResult, VectorData}
use sochdb_go.Namespace.Vectors.{Floats}
use sochdb_go.Namespace.Search.{SearchEnv}
use sochdb_go.Namespace.Ranking.{Falling, LawfulRanking}

abbrev pub Found : Type 0
Found = SearchResult ℕ ℕ

unfoldable pub insert_result : Found → List Found → List Found
insert_result r [] = r ∷ []
insert_result r (q ∷ results) =
    let rest = insert_result r results in if ltb r.score q.score then q ∷ rest else r ∷ q ∷ results

unfoldable pub sort_results : List Found → List Found
sort_results [] = []
sort_results (r ∷ results) = insert_result r (sort_results results)

abbrev pub whole_floats : Floats ℕ ℕ
whole_floats = record {
  wide = λ x. x;
  narrow = λ x. x;
  zero_score = 0;
  zero_wide = 0;
  plus = λ x y. x + y;
  times = λ x y. x * y;
  over = λ x y. (1000 * x) / y;
  sqrt = λ x. x;
  is_zero = λ x. x == 0;
  above = λ x y. ltb y x;
}

-- A stored value is the vector's data itself.
abbrev pub whole_env : {Blob : Type 0} → (Blob → Option (VectorData ℕ ℕ)) → SearchEnv ℕ ℕ ℕ Blob
whole_env unmarshal = record {
  floats = whole_floats;
  printed = λ v. v ∷ [];
  unmarshal_vector = unmarshal;
  sort_slice = sort_results;
}

In-insert_result : (r x : Found) (l : List Found) → In x (insert_result r l) → (x ≡ r) ⊎ In x l
unfolding insert_result
In-insert_result r x [] i = i
In-insert_result r x (q ∷ l) i = ground (arith, In-insert_result r x l)

insert_result-In : (r x : Found) (l : List Found) → (x ≡ r) ⊎ In x l → In x (insert_result r l)
unfolding insert_result
insert_result-In r x [] i = i
insert_result-In r x (q ∷ l) i = ground (arith, insert_result-In r x l)

module _ {Blob : Type 0} (unmarshal : Blob → Option (VectorData ℕ ℕ)) where
  insert_result-Falling :
      (r : Found) (l : List Found)
      → Falling (whole_env unmarshal) l
      → Falling (whole_env unmarshal) (insert_result r l)
  unfolding insert_result
  insert_result-Falling r [] h = ((λ q i. absurd i), tt)
  insert_result-Falling r (p ∷ l) (first, later) = elim (Bool-cases (ltb r.score p.score)) [
    | inl e ↦ rw e (
      (λ q i. elim (In-insert_result r q l i) [
        | inl same ↦ rw same (ground arith)
        | inr behind ↦ first q behind
      ]),
      insert_result-Falling r l later,
    )
    | inr e ↦ rw e (
      (λ q i. elim i [ inl same ↦ rw same e | inr behind ↦ ground (arith, first q behind) ]),
      (first, later),
    )
  ]

  sort_results-Falling : (l : List Found) → Falling (whole_env unmarshal) (sort_results l)
  unfolding sort_results
  sort_results-Falling [] = tt
  sort_results-Falling (r ∷ l) = insert_result-Falling r (sort_results l) (sort_results-Falling l)

  In-sort_results : (x : Found) (l : List Found) → In x (sort_results l) → In x l
  unfolding sort_results
  In-sort_results x [] i = i
  In-sort_results x (r ∷ l) i = elim (In-insert_result r x (sort_results l) i) [
    | inl same ↦ inl same
    | inr later ↦ inr (In-sort_results x l later)
  ]

  sort_results-In : (x : Found) (l : List Found) → In x l → In x (sort_results l)
  unfolding sort_results
  sort_results-In x [] i = i
  sort_results-In x (r ∷ l) (inl e) = insert_result-In r x (sort_results l) (inl e)
  sort_results-In x (r ∷ l) (inr i) =
      insert_result-In r x (sort_results l) (inr (sort_results-In x l i))

  pub whole_env-LawfulRanking : LawfulRanking (whole_env unmarshal)
  whole_env-LawfulRanking = record {
    sort-Falling = sort_results-Falling;
    In-sort = In-sort_results;
    sort-In = sort_results-In;
  }
