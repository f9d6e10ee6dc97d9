-- ===== src/MemorySystem/Retrieval/Isolation.antt =====
-- Retrieve returns nothing that its filter does not allow.
use sochdb_go.Prelude.{
  In-take, length-take-le, ℕ, suc, ◌≤◌, ◌≡◌, refl, sym, ap, ◌∙◌, ◌⊎◌, inl, inr, In, List, [], ◌∷◌,
  true, some, Bool-cases, Option-cases, length, take, drop, arith,
}
use mathlib.Core.Path.{subst}
use sochdb_go.Prelude.Int.{ℤ, pos, negsuc}
use sochdb_go.Prelude.Result.{ok, bind-ok}
use sochdb_go.Prelude.Bytes.{Bytes, codes}
use sochdb_go.Prelude.Maps.{Dict, lookup, set_entry, In-set_entry}
use sochdb_go.MemorySystem.{AllowedSet, is_allowed, AutoDb}
use sochdb_go.MemorySystem.Retrieval.{
  HybridRetriever, ScoredDoc, RetrievalEnv, id_key, doc_prefix, first_results, add_document,
  read_documents, filter_allowed, id_of, lexical_scores, semantic_scores, or_zero_real, scored_docs,
  with_scores, rank_docs, if_any,
}
use sochdb_go.MemorySystem.Retrieval.Stored.{get_all_documents, retrieve}

module _ {F V : Type 0} (env : RetrievalEnv F V) where
  -- The document of an entry of the scan, under the id behind its prefix.
  abbrev pub Stored : ℕ → List (Bytes × Bytes) → Bytes → Dict V → Type 0
  Stored size entries id doc =
      (entry : Bytes × Bytes) × In entry entries
      × (id ≡ drop size entry.0)
      × (fields : Dict V) × (env.unmarshal_doc entry.1 ≡ some (some fields))
      × (doc ≡ set_entry id_key (env.values.of_text id) fields)

  -- `range` goes through documents of the map only, and sort.Slice keeps to the documents it has.
  pub record LawfulOrder : Type 0 where
    pub In-range : (e : Bytes × Dict V) (m : Dict (Dict V)) → In e (env.range_docs m) → In e m
    pub In-sort : (d : ScoredDoc F V) (l : List (ScoredDoc F V)) → In d (env.sort_docs l) → In d l

  AllStored : ℕ → List (Bytes × Bytes) → Dict (Dict V) → Type 0
  AllStored size entries documents =
      (id : Bytes) (doc : Dict V) → In (id, doc) documents → Stored size entries id doc

  later-Stored :
      (size : ℕ) (e : Bytes × Bytes) (entries : List (Bytes × Bytes)) (id : Bytes) (doc : Dict V)
      → Stored size entries id doc
      → Stored size (e ∷ entries) id doc
  later-Stored size e entries id doc (entry, i, same, fields, read, made) =
      (entry, inr i, same, fields, read, made)

  read_documents-Stored :
      (size : ℕ) (entries : List (Bytes × Bytes)) (documents found : Dict (Dict V)) (id : Bytes)
      (doc : Dict V)
      → read_documents env size entries documents ≡ ok found
      → In (id, doc) found
      → In (id, doc) documents ⊎ Stored size entries id doc
  unfolding read_documents add_document
  read_documents-Stored size [] documents found id doc h i =
      inl (let same : documents ≡ found = cc in subst (In (id, doc)) (sym same) i)
  read_documents-Stored size ((key, value) ∷ entries) documents found id doc h i =
      elim (Option-cases (env.unmarshal_doc value)) [
        | inl e ↦ elim (read_documents-Stored size entries documents found id doc (rw e at h) i) [
          | inl old ↦ inl old
          | inr new ↦ inr (later-Stored size (key, value) entries id doc new)
        ]
        | inr (o, e) ↦ elim (Option-cases o) [
          | inl nil ↦ absurd (let h' = rw nil at (rw e at h) in cc)
          | inr (fields, some_fields) ↦
              let h' = rw some_fields at (rw e at h) in
              elim (read_documents-Stored size entries _ found id doc h' i) [
                | inl old ↦ elim (In-set_entry (id, doc) (drop size key) _ documents old) [
                  | inl new ↦
                      let same : id ≡ drop size key = ap (λ (p : Bytes × Dict V). p.0) new in
                      inr (
                        (key, value),
                        inl refl,
                        same,
                        fields,
                        e ∙ ap some some_fields,
                        ap (λ (p : Bytes × Dict V). p.1) new
                            ∙ ap (λ k. set_entry id_key (env.values.of_text k) fields) (sym same),
                      )
                  | inr older ↦ inl older
                ]
                | inr new ↦ inr (later-Stored size (key, value) entries id doc new)
              ]
        ]
      ]

  In-filter_allowed :
      (allowed : AllowedSet V) (documents : Dict (Dict V)) (doc : Dict V)
      → In doc (filter_allowed env allowed documents)
      → (id : Bytes) × In (id, doc) documents × (is_allowed allowed id (some doc) ≡ true)
  unfolding filter_allowed
  In-filter_allowed allowed [] doc i = absurd i
  In-filter_allowed allowed ((id, d) ∷ documents) doc i =
      elim (Bool-cases (is_allowed allowed id (some d))) [
        | inl e ↦ elim (rw e at i) [
          | inl here ↦ (id, inl (ap (λ x. (id, x)) here), rw here e)
          | inr later ↦
              let (k, j, fine) = In-filter_allowed allowed documents doc later in (k, inr j, fine)
        ]
        | inr e ↦
            let (k, j, fine) = In-filter_allowed allowed documents doc (rw e at i) in
            (k, inr j, fine)
      ]

  In-scored_docs :
      (combined : Dict F) (docs : List (Dict V)) (scored : List (ScoredDoc F V))
      (found : ScoredDoc F V)
      → scored_docs env combined docs ≡ ok scored
      → In found scored
      → In found.doc docs
  unfolding scored_docs
  In-scored_docs combined [] scored found h i =
      absurd (let same : [] ≡ scored = cc in subst (In found) (sym same) i)
  In-scored_docs combined (doc ∷ docs) scored found h i = bind-ok (id_of env doc) _ h (λ id e1 h1.
      bind-ok (scored_docs env combined docs) _ h1 (λ rest e2 h2.
        let same : record { doc = doc; score = or_zero_real env (lookup id combined) } ∷ rest
            ≡ scored =
          cc in
        elim (subst (In found) (sym same) i) [
          | inl here ↦ inl (ap (λ (x : ScoredDoc F V). x.doc) here)
          | inr later ↦ inr (In-scored_docs combined docs rest found e2 later)
        ]))

  In-with_scores :
      (l : List (ScoredDoc F V)) (doc : Dict V)
      → In doc (with_scores env l)
      → (found : ScoredDoc F V) × In found l
        × (doc ≡ set_entry (codes "_score") (env.of_real found.score) found.doc)
  unfolding with_scores
  In-with_scores [] doc i = absurd i
  In-with_scores (found ∷ l) doc (inl e) = (found, inl refl, e)
  In-with_scores (found ∷ l) doc (inr i) = let (x, j, e) = In-with_scores l doc i in (x, inr j, e)

  length-with_scores : (l : List (ScoredDoc F V)) → length (with_scores env l) ≡ length l
  unfolding with_scores
  length-with_scores [] = refl
  length-with_scores (found ∷ l) = ap suc (length-with_scores l)

  -- What may be returned: a document of the scan that is allowed, with its score added.
  abbrev pub Permitted : AllowedSet V → ℕ → List (Bytes × Bytes) → Dict V → Type 0
  Permitted allowed size entries result =
      (id : Bytes) × (doc : Dict V) × Stored size entries id doc
      × (is_allowed allowed id (some doc) ≡ true)
      × (score : F) × (result ≡ set_entry (codes "_score") (env.of_real score) doc)

  taken-lem :
      (z : ℤ) (n : ℕ) (l taken : List (ScoredDoc F V))
      → z ≡ pos n
      → first_results z l ≡ ok taken
      → taken ≡ take n l
  unfolding first_results
  taken-lem (pos m) n l taken e h =
      let same : m ≡ n = cc in
      let taken' : take m l ≡ taken = cc in sym taken' ∙ ap (λ k. take k l) same
  taken-lem (negsuc m) n l taken e h = absurd (cc)

  rank_docs-lem :
      (law : LawfulOrder) (query : Bytes) (hr : HybridRetriever F) (docs results : List (Dict V))
      (n : ℕ)
      → hr.config.limit ≡ pos n
      → rank_docs env query hr docs ≡ ok results
      → (length results ≤ n)
        × ((result : Dict V)
            → In result results
            → (doc : Dict V) × In doc docs
              × (score : F) × (result ≡ set_entry (codes "_score") (env.of_real score) doc))
  unfolding rank_docs
  rank_docs-lem law query hr docs results n limit h =
      bind-ok (lexical_scores env hr.bm25 query docs []) _ h (λ lexical e1 h1.
        bind-ok (semantic_scores env query docs []) _ h1 (λ semantic e2 h2.
          bind-ok (scored_docs env _ docs) _ h2 (λ scored e3 h3.
            bind-ok (first_results hr.config.limit (env.sort_docs scored)) _ h3 (λ taken e4 h4.
              let cut : taken ≡ take n (env.sort_docs scored) =
                taken-lem hr.config.limit n (env.sort_docs scored) taken limit e4 in
              let same : with_scores env taken ≡ results = cc in
              let size : length (with_scores env taken) ≤ n =
                let a = length-with_scores taken in
                let b : length taken ≡ length (take n (env.sort_docs scored)) = ap length cut in
                let c = length-take-le n (env.sort_docs scored) in omega arith in
              (
                subst (λ (l : List (Dict V)). length l ≤ n) same size,
                (λ result i.
                    let (found, j, e) =
                      In-with_scores taken result (subst (In result) (sym same) i) in
                    let k =
                      law.In-sort found scored
                        (In-take found n (env.sort_docs scored) (subst (In found) cut j)) in
                    (found.doc, In-scored_docs _ docs scored found e3 k, found.score, e)),
              )))))

  if_any-lem :
      (law : LawfulOrder) (query : Bytes) (hr : HybridRetriever F) (docs results : List (Dict V))
      (n : ℕ)
      → hr.config.limit ≡ pos n
      → if_any env query hr docs ≡ ok results
      → (length results ≤ n)
        × ((result : Dict V)
            → In result results
            → (doc : Dict V) × In doc docs
              × (score : F) × (result ≡ set_entry (codes "_score") (env.of_real score) doc))
  unfolding if_any
  if_any-lem law query hr [] results n limit h =
      let same : [] ≡ results = cc in
      (
        subst (λ (l : List (Dict V)). length l ≤ n) same (omega arith),
        (λ result i. absurd (subst (In result) (sym same) i)),
      )
  if_any-lem law query hr (doc ∷ docs) results n limit h =
      rank_docs-lem law query hr (doc ∷ docs) results n limit h

  -- Retrieve with a limit of `n` returns at most `n` documents. Each of them is stored under the
  -- retriever's prefix, its id is what follows the prefix in its key, the set of allowed documents
  -- allows it under this id, and only "id" and "_score" are set in it.
  pub retrieve-Permitted :
      {S : Type 0} (db : AutoDb S) (query : Bytes) (allowed : AllowedSet V) (hr : HybridRetriever F)
      (s : S) (n : ℕ) (results : List (Dict V))
      → LawfulOrder
      → hr.config.limit ≡ pos n
      → retrieve env db query allowed hr s ≡ ok results
      → (length results ≤ n)
        × ((result : Dict V)
            → In result results
            → Permitted allowed (length (doc_prefix hr)) (db.scan (doc_prefix hr) s).0 result)
  unfolding retrieve get_all_documents
  retrieve-Permitted db query allowed hr s n results law limit h =
      let entries : List (Bytes × Bytes) = (db.scan (doc_prefix hr) s).0 in
      bind-ok (read_documents env (length (doc_prefix hr)) entries []) _ h (λ documents e h'.
        let (size, all) =
          if_any-lem law query hr (filter_allowed env allowed (env.range_docs documents)) results n
            limit h' in
        (
          size,
          λ result i.
              let (doc, j, score, same) = all result i in
              let (id, k, fine) = In-filter_allowed allowed (env.range_docs documents) doc j in
              (
                id,
                doc,
                elim (read_documents-Stored (length (doc_prefix hr)) entries [] documents id doc e
                    (law.In-range (id, doc) documents k)) [
                      | inl none_there ↦ absurd none_there
                      | inr stored ↦ stored
                    ],
                fine,
                score,
                same,
              ),
        ))
