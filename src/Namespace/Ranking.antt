-- ===== src/Namespace/Ranking.antt =====
-- Search returns the best of the vectors that pass its filter.
use sochdb_go.Prelude.{
  ℕ, zero, suc, ◌≤◌, ◌≡◌, ◌⊎◌, refl, sym, ap, ◌∙◌, List, [], ◌∷◌, Bool, true, false, Option, none,
  some, inl, inr, In, length, take, drop, arith,
}
use mathlib.Core.Path.{subst}
use sochdb_go.Prelude.Int.{pos}
use sochdb_go.Prelude.Result.{ok}
use sochdb_go.Prelude.Bytes.{Bytes}
use sochdb_go.Store.{Db}
use sochdb_go.Namespace.{SearchRequest, SearchResult, Collection, vector_key_prefix}
use sochdb_go.Namespace.Search.{
  SearchEnv, limit, add_found, candidate, candidates, scan_results, rank, search,
}

module _ {A : Type 0} where
  In-take : (x : A) (n : ℕ) (l : List A) → In x (take n l) → In x l
  In-take x zero l i = absurd i
  In-take x (suc n) [] i = i
  In-take x (suc n) (y ∷ l) (inl e) = inl e
  In-take x (suc n) (y ∷ l) (inr i) = inr (In-take x n l i)

  In-drop : (x : A) (n : ℕ) (l : List A) → In x (drop n l) → In x l
  In-drop x zero l i = i
  In-drop x (suc n) [] i = i
  In-drop x (suc n) (y ∷ l) i = inr (In-drop x n l i)

  In-take_or_drop : (x : A) (n : ℕ) (l : List A) → In x l → In x (take n l) ⊎ In x (drop n l)
  In-take_or_drop x zero l i = inr i
  In-take_or_drop x (suc n) [] i = inl i
  In-take_or_drop x (suc n) (y ∷ l) (inl e) = inl (inl e)
  In-take_or_drop x (suc n) (y ∷ l) (inr i) = elim (In-take_or_drop x n l i) [
    | inl kept ↦ inl (inr kept)
    | inr left ↦ inr left
  ]

  length-take-le : (n : ℕ) (l : List A) → length (take n l) ≤ n
  length-take-le zero l = omega arith
  length-take-le (suc n) [] = omega arith
  length-take-le (suc n) (y ∷ l) = omega (arith, length-take-le n l)

  length-take_full : (x : A) (n : ℕ) (l : List A) → In x (drop n l) → length (take n l) ≡ n
  length-take_full x zero l i = refl
  length-take_full x (suc n) [] i = absurd i
  length-take_full x (suc n) (y ∷ l) i = omega (arith, length-take_full x n l i)

  In-add_found : (x : A) (o : Option A) (l : List A) → In x (add_found o l) → (o ≡ some x) ⊎ In x l
  In-add_found x none l i = inr i
  In-add_found x (some y) l (inl e) = inl (ap some (sym e))
  In-add_found x (some y) l (inr i) = inr i

  add_found-In : (x : A) (o : Option A) (l : List A) → (o ≡ some x) ⊎ In x l → In x (add_found o l)
  add_found-In x none l (inl e) = absurd (cc)
  add_found-In x none l (inr i) = i
  add_found-In x (some y) l (inl e) = inl (cc)
  add_found-In x (some y) l (inr i) = inr i

module _ {F D V Blob : Type 0} (env : SearchEnv F D V Blob) where
  -- No later result has a score above an earlier one.
  abbrev pub Falling : List (SearchResult F V) → Type 0
  Falling [] = Unit {0}
  Falling (r ∷ results) =
      ((q : SearchResult F V) → In q results → env.floats.above q.score r.score ≡ false)
      × Falling results

  -- sort.Slice orders the results and keeps each of them.
  pub record LawfulRanking : Type 0 where
    pub sort-Falling : (results : List (SearchResult F V)) → Falling (env.sort_slice results)
    pub In-sort :
        (r : SearchResult F V) (results : List (SearchResult F V))
        → In r (env.sort_slice results)
        → In r results
    pub sort-In :
        (r : SearchResult F V) (results : List (SearchResult F V))
        → In r results
        → In r (env.sort_slice results)

  Falling-take : (n : ℕ) (l : List (SearchResult F V)) → Falling l → Falling (take n l)
  Falling-take zero l h = tt
  Falling-take (suc n) [] h = tt
  Falling-take (suc n) (r ∷ l) (first, later) =
      ((λ q i. first q (In-take q n l i)), Falling-take n l later)

  Falling-drop :
      (n : ℕ) (l : List (SearchResult F V))
      → Falling l
      → (q r : SearchResult F V) → In q (drop n l)
      → In r (take n l)
      → env.floats.above q.score r.score ≡ false
  Falling-drop zero l h q r i j = absurd j
  Falling-drop (suc n) [] h q r i j = absurd j
  Falling-drop (suc n) (p ∷ l) (first, later) q r i (inl e) = rw e (first q (In-drop q n l i))
  Falling-drop (suc n) (p ∷ l) (first, later) q r i (inr j) = Falling-drop n l later q r i j

  module _ (request : SearchRequest F V) (size : ℕ) where
    candidates-In :
        (r : SearchResult F V) (entries : List (Bytes × Blob))
        → In r (candidates env request size entries)
        → (entry : Bytes × Blob) × In entry entries × (candidate env request size entry ≡ some r)
    unfolding candidates
    candidates-In r [] i = absurd i
    candidates-In r (entry ∷ entries) i =
        elim (In-add_found r (candidate env request size entry)
          (candidates env request size entries) i) [
            | inl same ↦ (entry, inl refl, same)
            | inr later ↦ let (e, j, c) = candidates-In r entries later in (e, inr j, c)
          ]

    In-candidates :
        (r : SearchResult F V) (entry : Bytes × Blob) (entries : List (Bytes × Blob))
        → In entry entries
        → candidate env request size entry ≡ some r
        → In r (candidates env request size entries)
    unfolding candidates
    In-candidates r entry [] i c = absurd i
    In-candidates r entry (first ∷ entries) (inl e) c =
        add_found-In r _ (candidates env request size entries)
          (inl (ap (candidate env request size) (sym e) ∙ c))
    In-candidates r entry (first ∷ entries) (inr i) c =
        add_found-In r (candidate env request size first) _
          (inr (In-candidates r entry entries i c))

    -- The answer to a request for at most `k` results, from the entries of the scan.
    abbrev pub Ranked : ℕ → List (Bytes × Blob) → List (SearchResult F V) → Type 0
    Ranked k entries results =
        (length results ≤ k)
        × Falling results
        × ((r : SearchResult F V)
            → In r results
            → (entry : Bytes × Blob) × In entry entries
              × (candidate env request size entry ≡ some r))
        × ((entry : Bytes × Blob) (r : SearchResult F V)
            → In entry entries
            → candidate env request size entry ≡ some r
            → In r results
              ⊎ ((length results ≡ k)
                  × ((q : SearchResult F V)
                      → In q results
                      → env.floats.above r.score q.score ≡ false)))

    take-Ranked :
        (law : LawfulRanking) (k : ℕ) (entries : List (Bytes × Blob))
        → Ranked k entries (take k (env.sort_slice (candidates env request size entries)))
    take-Ranked law k entries =
        let found : List (SearchResult F V) = candidates env request size entries in
        let sorted : List (SearchResult F V) = env.sort_slice found in
        (
          length-take-le k sorted,
          Falling-take k sorted (law.sort-Falling found),
          λ r i. candidates-In r entries (law.In-sort r found (In-take r k sorted i)),
          λ entry r i c.
              elim (In-take_or_drop r k sorted
                (law.sort-In r found (In-candidates r entry entries i c))) [
                  | inl kept ↦ inl kept
                  | inr left ↦ inr (
                    length-take_full r k sorted left,
                    λ q j. Falling-drop k sorted (law.sort-Falling found) r q left j,
                  )
                ],
        )

    rank-Ranked :
        (law : LawfulRanking) (k : ℕ) (entries : List (Bytes × Blob)) (fine : Bool)
        (results : List (SearchResult F V))
        → rank env (pos k) (scan_results env (some (entries, fine)) request size) ≡ ok results
        → (fine ≡ true) × Ranked k entries results
    unfolding rank scan_results limit
    rank-Ranked law k entries false results h = absurd (cc)
    rank-Ranked law k entries true results h =
        let same : take k (env.sort_slice (candidates env request size entries)) ≡ results = cc in
        (refl, subst (Ranked k entries) same (take-Ranked law k entries))

  -- On a database with ScanPrefix, and with a sort that orders by falling score: if Search for at
  -- most `k` results returns some, the scan of the collection's vectors ended with no error. There
  -- are at most `k` results, with falling scores; each is made of an entry of the scan that can be
  -- read and passes the filter; and each such entry gives a result, unless there are `k` results
  -- and its score is above none of theirs.
  pub search_ranks :
      {S : Type 0} (db : Db S Blob) (scan : Bytes → S → List (Bytes × Blob) × Bool)
      (request : SearchRequest F V) (c : Collection V) (s : S) (k : ℕ)
      (results : List (SearchResult F V))
      → LawfulRanking
      → db.scan_prefix ≡ some scan
      → request.k ≡ pos k
      → search env db request c s ≡ ok results
      → ((scan (vector_key_prefix c.namespace c.name) s).1 ≡ true)
        × Ranked request
            (length (vector_key_prefix c.namespace c.name))
            k
            (scan (vector_key_prefix c.namespace c.name) s).0
            results
  unfolding search
  search_ranks db scan request c s k results law scan_is most h =
      rank-Ranked request (length (vector_key_prefix c.namespace c.name)) law k
        (scan (vector_key_prefix c.namespace c.name) s).0
        (scan (vector_key_prefix c.namespace c.name) s).1 results
        (ap
            (λ z. rank env z (
              scan_results env (some (scan (vector_key_prefix c.namespace c.name) s)) request
                (length (vector_key_prefix c.namespace c.name))))
            (sym most)
          ∙ rw scan_is at h)
