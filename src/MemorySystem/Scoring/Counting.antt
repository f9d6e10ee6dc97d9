-- ===== src/MemorySystem/Scoring/Counting.antt =====
-- The document frequencies of IndexDocuments.
use mathlib.Core.Logic.{∥∥₁_elim}
use mathlib.Core.List.{Perm, Permᴰ}
use native.Mathlib.Nat.{ℕ_set}
use sochdb_go.Prelude.{
  ℕ, ◌+◌, ◌≡◌, refl, sym, ap, ◌∙◌, List, [], ◌∷◌, Bool, true, false, ◌&&◌, ◌||◌, not, Bool-cases,
  inl, inr, length, arith,
}
use sochdb_go.Prelude.Bytes.{Bytes}
use sochdb_go.Prelude.Bytes.Order.{bytes_eq, bytes_eq_iff}
use sochdb_go.Prelude.Maps.{
  Dict, lookup, set_entry, lookup-set_entry, or_zero, count_up, lookup-count_up,
}
use sochdb_go.MemorySystem.{or_false}
use sochdb_go.MemorySystem.Scoring.{
  ScoreEnv, Bm25Scorer, count_new_terms, tokenize, index_texts, with_average, index_documents,
}

abbrev pub has_term : Bytes → List Bytes → Bool
has_term t [] = false
has_term t (u ∷ terms) = bytes_eq u t || has_term t terms

abbrev pub one_if : Bool → ℕ
one_if true = 1
one_if false = 0

count_new_terms-lookup :
    (terms : List Bytes) (seen : Dict Bool) (freq : Dict ℕ) (t : Bytes)
    → or_zero (lookup t (count_new_terms terms seen freq))
      ≡ or_zero (lookup t freq) + one_if (has_term t terms && not (or_false (lookup t seen)))
unfolding count_new_terms
count_new_terms-lookup [] seen freq t = omega arith
count_new_terms-lookup (u ∷ terms) seen freq t = elim (Bool-cases (or_false (lookup u seen))) [
  | inl again ↦ rw again (elim (Bool-cases (bytes_eq u t)) [
    | inl e ↦
        let same : u ≡ t = (bytes_eq_iff u t).0 e in
        let marked : or_false (lookup t seen) ≡ true =
          ap (λ k. or_false (lookup k seen)) (sym same) ∙ again in
        count_new_terms-lookup terms seen freq t ∙ rw (marked, e) (ground arith)
    | inr e ↦ count_new_terms-lookup terms seen freq t ∙ rw e refl
  ])
  | inr first ↦ rw first (
      count_new_terms-lookup terms (set_entry u true seen) (count_up u freq) t
      ∙ rw (lookup-count_up u freq t, lookup-set_entry u true seen t)
          (elim (Bool-cases (bytes_eq u t)) [
            | inl e ↦
                let same : u ≡ t = (bytes_eq_iff u t).0 e in
                let unmarked : or_false (lookup t seen) ≡ false =
                  ap (λ k. or_false (lookup k seen)) (sym same) ∙ first in
                rw (e, unmarked) (ground arith)
            | inr e ↦ rw e refl
          ]))
]

not_seen : (t : Bytes) → or_false (lookup t []) ≡ false
unfolding lookup
not_seen t = refl

module _ {F : Type 0} (env : ScoreEnv F) where
  -- The number of documents with the term among their terms.
  abbrev pub documents_with : Bytes → Dict Bytes → ℕ
  documents_with t [] = 0
  documents_with t ((id, text) ∷ docs) =
      one_if (has_term t (tokenize env text)) + documents_with t docs

  documents_with-Permᴰ :
      (t : Bytes) {l m : Dict Bytes} → Permᴰ l m → documents_with t l ≡ documents_with t m
  documents_with-Permᴰ t Permᴰ.nil = refl
  documents_with-Permᴰ t (Permᴰ.cons e d) = omega (
    arith,
    documents_with-Permᴰ t d,
    ap (λ (p : Bytes × Bytes). one_if (has_term t (tokenize env p.1))) e,
  )
  documents_with-Permᴰ t (Permᴰ.swap e f) = omega (
    arith,
    ap (λ (p : Bytes × Bytes). one_if (has_term t (tokenize env p.1))) e,
    ap (λ (p : Bytes × Bytes). one_if (has_term t (tokenize env p.1))) f,
  )
  documents_with-Permᴰ t (Permᴰ.trans d e) = documents_with-Permᴰ t d ∙ documents_with-Permᴰ t e

  documents_with-Perm :
      (t : Bytes) {l m : Dict Bytes} → Perm l m → documents_with t l ≡ documents_with t m
  documents_with-Perm t w = ∥∥₁_elim w (ℕ_set _ _) (documents_with-Permᴰ t)

  index_texts-lookup :
      (docs : Dict Bytes) (total : ℕ) (bm : Bm25Scorer F) (t : Bytes)
      → or_zero (lookup t (index_texts env docs total bm).1.term_doc_freq)
        ≡ or_zero (lookup t bm.term_doc_freq) + documents_with t docs
  unfolding index_texts
  index_texts-lookup [] total bm t = omega arith
  index_texts-lookup ((id, text) ∷ docs) total bm t =
      index_texts-lookup docs _ _ t
      ∙ (let counted = count_new_terms-lookup (tokenize env text) [] bm.term_doc_freq t in
          let unseen : or_false (lookup t []) ≡ false = not_seen t in
          ground (arith, counted, unseen))

  with_average-freq :
      (p : ℕ × Bm25Scorer F) → (with_average env p).term_doc_freq ≡ p.1.term_doc_freq
  with_average-freq (total, bm) = ground arith

  with_average-count :
      (p : ℕ × Bm25Scorer F) → (with_average env p).document_count ≡ p.1.document_count
  with_average-count (total, bm) = ground arith

  index_texts-count :
      (docs : Dict Bytes) (total : ℕ) (bm : Bm25Scorer F)
      → (index_texts env docs total bm).1.document_count ≡ bm.document_count
  unfolding index_texts
  index_texts-count [] total bm = refl
  index_texts-count ((id, text) ∷ docs) total bm = index_texts-count docs _ _

  -- If `range` goes once through each document, IndexDocuments adds, for each term, the number of the
  -- documents that contain it to the frequency that the scorer had, and counts the documents.
  pub index_documents_counts :
      (docs : Dict Bytes) (bm : Bm25Scorer F) (t : Bytes)
      → Perm (env.range_texts docs) docs
      → (or_zero (lookup t (index_documents env docs bm).term_doc_freq)
          ≡ or_zero (lookup t bm.term_doc_freq) + documents_with t docs)
        × ((index_documents env docs bm).document_count ≡ length docs)
  unfolding index_documents
  index_documents_counts docs bm t once =
      let start : Bm25Scorer F = record bm { documents = docs; document_count = length docs } in
      (
        ap (λ m. or_zero (lookup t m))
              (with_average-freq (index_texts env (env.range_texts docs) 0 start))
            ∙ index_texts-lookup (env.range_texts docs) 0 start t
            ∙ ap (λ n. or_zero (lookup t bm.term_doc_freq) + n) (documents_with-Perm t once),
        with_average-count (index_texts env (env.range_texts docs) 0 start)
            ∙ index_texts-count (env.range_texts docs) 0 start,
      )
