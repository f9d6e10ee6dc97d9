-- ===== src/MemorySystem/Scoring.antt =====
-- The scores of memory_retrieval.go: tokenize, BM25Scorer, cosineSimilarity, rankScores and
-- reciprocalRankFusion.
pub mod Counting
pub mod Ranks
pub mod Sorter
use sochdb_go.Prelude.{
  ℕ, suc, ◌+◌, ◌*◌, ◌==◌, List, [], ◌∷◌, Bool, true, false, ◌||◌, Option, none, some, if◌then◌else◌,
  length, ltb,
}
use sochdb_go.Prelude.Int.{ℤ, pos}
use sochdb_go.Prelude.Bytes.{Bytes, codes}
use sochdb_go.Prelude.Maps.{Dict, lookup, set_entry, or_zero, count_up}
use sochdb_go.MemorySystem.{Reals, or_false}

-- What Go's libraries do here: strings.ToLower and strings.Fields; the order in which `range` goes
-- through a map; and sort.Slice of ids by falling score.
pub record ScoreEnv (F : Type 0) : Type 0 where
  pub reals : Reals F
  pub to_lower : Bytes → Bytes
  pub fields : Bytes → List Bytes
  pub range_texts : Dict Bytes → Dict Bytes
  pub range_counts : Dict ℕ → Dict ℕ
  pub range_scores : Dict F → Dict F
  pub range_ids : Dict Bool → Dict Bool
  pub sort_scores : Dict F → Dict F

-- ".,!?;:()[]{}\"'"
unfoldable pub punctuation : ℕ → List ℕ → Bool
punctuation c [] = false
punctuation c (b ∷ set) = (c == b) || punctuation c set

abbrev pub cutset : Bytes
cutset = codes ".,!?;:()[]{}\"'"

unfoldable pub drop_punctuation : Bytes → Bytes
drop_punctuation [] = []
drop_punctuation (c ∷ text) =
    let rest = drop_punctuation text in if punctuation c cutset then rest else c ∷ text

-- The text without the punctuation at its end.
unfoldable pub drop_trailing : Bytes → Bytes
drop_trailing [] = []
drop_trailing (c ∷ text) = elim (drop_trailing text) [
  | [] ↦ if punctuation c cutset then [] else c ∷ []
  | b ∷ rest ↦ c ∷ b ∷ rest
]

-- strings.Trim
unfoldable pub trim : Bytes → Bytes
trim text = drop_trailing (drop_punctuation text)

abbrev pub add_term : Bytes → List Bytes → List Bytes
add_term [] terms = terms
add_term (c ∷ term) terms = (c ∷ term) ∷ terms

unfoldable pub clean_terms : List Bytes → List Bytes
clean_terms [] = []
clean_terms (term ∷ terms) = add_term (trim term) (clean_terms terms)

pub record Bm25Scorer (F : Type 0) : Type 0 where
  pub k1 : F
  pub b : F
  pub document_count : ℕ
  pub avg_doc_length : F
  pub term_doc_freq : Dict ℕ
  pub document_lengths : Dict ℕ
  pub documents : Dict Bytes

-- The loop over the terms of one document: each new one is counted.
unfoldable pub count_new_terms : List Bytes → Dict Bool → Dict ℕ → Dict ℕ
count_new_terms [] seen freq = freq
count_new_terms (term ∷ terms) seen freq =
    let again = count_new_terms terms seen freq in
    let first = count_new_terms terms (set_entry term true seen) (count_up term freq) in
    if or_false (lookup term seen) then again else first

unfoldable pub term_counts : List Bytes → Dict ℕ → Dict ℕ
term_counts [] freq = freq
term_counts (term ∷ terms) freq = term_counts terms (count_up term freq)

-- Reciprocal rank fusion: the weights are those of the configuration.
pub record Weights (F : Type 0) : Type 0 where
  pub lexical : F
  pub semantic : F

abbrev pub fill_rank : Option ℕ → Bytes → ℕ → Dict ℕ → Dict ℕ
fill_rank none id max_rank ranks = set_entry id max_rank ranks
fill_rank (some rank) id max_rank ranks = ranks

module _ {F : Type 0} where
  -- ranks[item.id] = i + 1
  unfoldable pub number_items : ℕ → Dict F → Dict ℕ → Dict ℕ
  number_items i [] ranks = ranks
  number_items i ((id, score) ∷ sorted) ranks =
      number_items (suc i) sorted (set_entry id (suc i) ranks)

  -- The loop over the ids that have no rank.
  unfoldable pub fill_missing : ℕ → Dict F → Dict ℕ → Dict ℕ
  fill_missing max_rank [] ranks = ranks
  fill_missing max_rank ((id, score) ∷ scores) ranks =
      fill_missing max_rank scores (fill_rank (lookup id ranks) id max_rank ranks)

  unfoldable pub mark_keys : Dict F → Dict Bool → Dict Bool
  mark_keys [] ids = ids
  mark_keys ((id, score) ∷ scores) ids = mark_keys scores (set_entry id true ids)

module _ {F : Type 0} (env : ScoreEnv F) where
  abbrev pub real : ℕ → F
  real n = env.reals.of_int (pos n)

  unfoldable pub tokenize : Bytes → List Bytes
  tokenize text = clean_terms (env.fields (env.to_lower text))

  unfoldable pub new_bm25_scorer : F → F → Bm25Scorer F
  new_bm25_scorer k1 b = record {
    k1 = k1;
    b = b;
    document_count = 0;
    avg_doc_length = env.reals.zero_real;
    term_doc_freq = [];
    document_lengths = [];
    documents = [];
  }

  -- The loop over the documents, with the total of their lengths.
  unfoldable pub index_texts : Dict Bytes → ℕ → Bm25Scorer F → ℕ × Bm25Scorer F
  index_texts [] total bm = (total, bm)
  index_texts ((id, text) ∷ docs) total bm =
      index_texts docs (total + length (tokenize text)) (record bm {
        document_lengths = set_entry id (length (tokenize text)) bm.document_lengths;
        term_doc_freq = count_new_terms (tokenize text) [] bm.term_doc_freq;
      })

  abbrev pub with_average : ℕ × Bm25Scorer F → Bm25Scorer F
  with_average (total, bm) =
      if ltb 0 bm.document_count
      then record bm { avg_doc_length = env.reals.over (real total) (real bm.document_count) }
      else bm

  unfoldable pub index_documents : Dict Bytes → Bm25Scorer F → Bm25Scorer F
  index_documents docs bm = with_average (
      index_texts (env.range_texts docs) 0
        (record bm { documents = docs; document_count = length docs }))

  -- idf * (numerator / denominator)
  unfoldable pub term_score : Bm25Scorer F → F → F → F → F
  term_score bm doc_length tf df =
      let n : F = real bm.document_count in
      let idf : F = env.reals.log (
        env.reals.plus
          (env.reals.over (env.reals.plus (env.reals.minus n df) env.reals.half)
            (env.reals.plus df env.reals.half))
          env.reals.one) in
      let numerator : F = env.reals.times tf (env.reals.plus bm.k1 env.reals.one) in
      let length_part : F = env.reals.times bm.b (env.reals.over doc_length bm.avg_doc_length) in
      let denominator : F =
        env.reals.plus tf (
          env.reals.times bm.k1
            (env.reals.plus (env.reals.minus env.reals.one bm.b) length_part)) in
      env.reals.times idf (env.reals.over numerator denominator)

  unfoldable pub score_terms : Bm25Scorer F → Dict ℕ → F → List Bytes → F → F
  score_terms bm term_freqs doc_length [] score = score
  score_terms bm term_freqs doc_length (term ∷ terms) score =
      score_terms bm term_freqs doc_length terms (
        if or_zero (lookup term bm.term_doc_freq) == 0
        then score
        else env.reals.plus score (
            term_score bm doc_length (real (or_zero (lookup term term_freqs)))
              (real (or_zero (lookup term bm.term_doc_freq)))))

  unfoldable pub score_document : Bm25Scorer F → Bytes → Bytes → Option Bytes → F
  score_document bm query doc_id none = env.reals.zero_real
  score_document bm query doc_id (some text) =
      score_terms bm (term_counts (tokenize text) [])
        (real (or_zero (lookup doc_id bm.document_lengths))) (tokenize query) env.reals.zero_real

  unfoldable pub bm25_score : Bm25Scorer F → Bytes → Bytes → F
  bm25_score bm query doc_id = score_document bm query doc_id (lookup doc_id bm.documents)

  abbrev pub add_product : ℕ → Option ℕ → F → F
  add_product qf none dot = dot
  add_product qf (some tf) dot = env.reals.plus dot (real (qf * tf))

  unfoldable pub dot_product : Dict ℕ → Dict ℕ → F → F
  dot_product [] text_freq dot = dot
  dot_product ((term, qf) ∷ query_freq) text_freq dot =
      dot_product query_freq text_freq (add_product qf (lookup term text_freq) dot)

  unfoldable pub sum_squares : Dict ℕ → F → F
  sum_squares [] mag = mag
  sum_squares ((term, count) ∷ freq) mag =
      sum_squares freq (env.reals.plus mag (real (count * count)))

  unfoldable pub magnitude : Dict ℕ → F
  magnitude freq = env.reals.sqrt (sum_squares (env.range_counts freq) env.reals.zero_real)

  unfoldable pub word_similarity : List Bytes → List Bytes → F
  word_similarity [] text = env.reals.zero_real
  word_similarity (q ∷ query) [] = env.reals.zero_real
  word_similarity (q ∷ query) (t ∷ text) =
      let query_freq : Dict ℕ = term_counts (q ∷ query) [] in
      let text_freq : Dict ℕ = term_counts (t ∷ text) [] in
      if env.reals.equal (magnitude query_freq) env.reals.zero_real
        || env.reals.equal (magnitude text_freq) env.reals.zero_real
      then env.reals.zero_real
      else env.reals.over (dot_product (env.range_counts query_freq) text_freq env.reals.zero_real)
          (env.reals.times (magnitude query_freq) (magnitude text_freq))

  unfoldable pub cosine_similarity : Bytes → Bytes → F
  cosine_similarity query text = word_similarity (tokenize query) (tokenize text)

  unfoldable pub rank_scores : Dict F → Dict ℕ
  rank_scores scores =
      fill_missing (suc (length scores)) (env.range_scores scores)
        (number_items 0 (env.sort_scores (env.range_scores scores)) [])

  unfoldable pub fused_score : Weights F → ℤ → ℕ → ℕ → F
  fused_score weights k lex_rank sem_rank =
      env.reals.plus
        (env.reals.over weights.lexical (env.reals.plus (env.reals.of_int k) (real lex_rank)))
        (env.reals.over weights.semantic (env.reals.plus (env.reals.of_int k) (real sem_rank)))

  unfoldable pub fuse : Weights F → ℤ → Dict ℕ → Dict ℕ → Dict Bool → Dict F → Dict F
  fuse weights k lexical_ranks semantic_ranks [] combined = combined
  fuse weights k lexical_ranks semantic_ranks ((id, b) ∷ ids) combined =
      fuse weights k lexical_ranks semantic_ranks ids (
        set_entry id
          (fused_score weights k (or_zero (lookup id lexical_ranks))
            (or_zero (lookup id semantic_ranks)))
          combined)

  unfoldable pub reciprocal_rank_fusion : Weights F → ℤ → Dict F → Dict F → Dict F
  reciprocal_rank_fusion weights k lexical semantic =
      fuse weights k (rank_scores lexical) (rank_scores semantic)
        (env.range_ids
          (mark_keys (env.range_scores semantic) (mark_keys (env.range_scores lexical) [])))
        []
