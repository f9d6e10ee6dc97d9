-- ===== src/Overlay/Cache/Best.antt =====
-- CacheGet returns a best match.
use sochdb_go.Prelude.{◌≡◌, refl, inl, inr, List, true, false, Option, none, some}
use mathlib.Core.Path.{subst}
use sochdb_go.Prelude.Int.{ℤ}
use sochdb_go.Prelude.Result.{Result, ok, err}
use sochdb_go.Prelude.Bytes.{Bytes}
use sochdb_go.Wire.Entries.{KeyValue}
use sochdb_go.Overlay.{Kv}
use sochdb_go.Overlay.Cache.{
  best_value, Float32, CacheEntry, CacheJson, score, best_match, cache_answer, cache_get,
  cache_prefix,
}
use sochdb_go.Overlay.Cache.Loop.{
  LawfulFloat, Candidate, Origin, best_match-beats, best_match-Origin,
}

module _ {F : Type 0} (float : Float32 F) (json : CacheJson F) (law : LawfulFloat float) where
  -- What the answer says of the entries of the scan.
  abbrev pub Answers : ℤ → List F → F → List KeyValue → Option Bytes → Type 0
  Answers now query threshold entries none =
      (entry : CacheEntry F)
      → Candidate float json law now query threshold entries entry
      → float.above (score float json query entry) float.minus_one ≡ false
  Answers now query threshold entries (some value) =
      (entry : CacheEntry F) × Candidate float json law now query threshold entries entry
      × (value ≡ entry.value)
      × (float.above (score float json query entry) float.minus_one ≡ true)
      × ((other : CacheEntry F)
          → Candidate float json law now query threshold entries other
          → float.above (score float json query other) (score float json query entry) ≡ false)

  state-Answers :
      (now : ℤ) (query : List F) (threshold : F) (entries : List KeyValue)
      (state : Option (CacheEntry F) × F)
      → Origin float json law now query threshold entries (none, float.minus_one) state
      → ((entry : CacheEntry F)
          → Candidate float json law now query threshold entries entry
          → float.above (score float json query entry) state.1 ≡ false)
      → Answers now query threshold entries (best_value state)
  unfolding best_value
  state-Answers now query threshold entries state (inl e) beats =
      rw e (λ entry candidate. rw e at (beats entry candidate))
  state-Answers now query threshold entries state (inr (entry, candidate, e, better)) beats =
      rw e (entry, candidate, refl, better, λ other c. rw e at (beats other c))

  scan-Answers :
      (now : ℤ) (query : List F) (threshold : F) (entries : List KeyValue)
      → Answers now query threshold entries
          (best_value (best_match float json now query threshold entries (none, float.minus_one)))
  scan-Answers now query threshold entries =
      state-Answers now query threshold entries _
        (best_match-Origin float json law now query threshold entries (none, float.minus_one))
        (best_match-beats float json law now query threshold entries (none, float.minus_one))

  cache_answer-Answers :
      {E : Type 0} (now : ℤ) (query : List F) (threshold : F) (scanned : Result E (List KeyValue))
      (answer : Option Bytes)
      → cache_answer float json now query threshold scanned ≡ ok answer
      → (entries : List KeyValue) × (scanned ≡ ok entries)
        × Answers now query threshold entries answer
  unfolding cache_answer
  cache_answer-Answers now query threshold (err e) answer h = absurd (cc)
  cache_answer-Answers now query threshold (ok entries) answer h =
      let same : best_value
            (best_match float json now query threshold entries (none, float.minus_one))
          ≡ answer =
        cc in
      (
        entries,
        refl,
        subst (Answers now query threshold entries) same (scan-Answers now query threshold entries),
      )

  -- If CacheGet returns no error, the scan of the cache's prefix returned entries. A value it returns
  -- is that of an entry that is not expired, has an embedding of the query's length, reaches the
  -- threshold and is above -1, and no other such entry has a score above it. If it returns no
  -- value, no such entry that reaches the threshold is above -1.
  pub cache_get_best :
      {S E : Type 0} (kv : Kv S E) (now : ℤ) (cache_name : Bytes) (query : List F) (threshold : F)
      (s : S) (answer : Option Bytes)
      → (cache_get float json kv now cache_name query threshold s).0 ≡ ok answer
      → (entries : List KeyValue) × ((kv.kv_scan (cache_prefix cache_name) s).0 ≡ ok entries)
        × Answers now query threshold entries answer
  unfolding cache_get
  cache_get_best kv now cache_name query threshold s answer h =
      cache_answer-Answers now query threshold (kv.kv_scan (cache_prefix cache_name) s).0 answer h
