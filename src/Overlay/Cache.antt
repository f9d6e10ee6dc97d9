-- ===== src/Overlay/Cache.antt =====
-- CachePut, CacheGet and cosineSimilarity. float32 is a parameter with its operations; the clock in
-- seconds is an argument.
pub mod Loop
pub mod Best
pub mod Keys
use sochdb_go.Prelude.{
  ℕ, zero, suc, ◌+◌, ◌*◌, ◌/◌, ◌%◌, ◌^◌, List, [], ◌∷◌, ◌++◌, Bool, true, false, ◌&&◌, ◌||◌, Option,
  none, some, ltb, ◌==◌, if◌then◌else◌, length, take,
}
use sochdb_go.Prelude.Int.{ℤ, ltℤ, to_u64, of_u64}
use sochdb_go.Prelude.Result.{Result, ok, err}
use sochdb_go.Prelude.Bytes.{Bytes, codes}
use sochdb_go.Wire.Entries.{KeyValue}
use sochdb_go.Overlay.{Kv}

-- Go's float32: `above` is >.
pub record Float32 (F : Type 0) : Type 0 where
  pub zero_float : F
  pub two : F
  pub minus_one : F
  pub plus : F → F → F
  pub minus : F → F → F
  pub times : F → F → F
  pub over : F → F → F
  pub equal : F → F → Bool
  pub above : F → F → Bool
  pub at_least : F → F → Bool

module _ {F : Type 0} (float : Float32 F) where
  -- Ten rounds from x / 2.
  unfoldable pub sqrt_rounds : ℕ → F → F → F
  sqrt_rounds zero x z = z
  sqrt_rounds (suc rounds) x z =
      sqrt_rounds rounds x
        (float.minus z (float.over (float.minus (float.times z z) x) (float.times float.two z)))

  unfoldable pub sqrt : F → F
  sqrt x =
      if float.at_least float.zero_float x
      then float.zero_float
      else sqrt_rounds 10 x (float.over x float.two)

  -- The sums of a loop over `a`; the caller has compared the lengths.
  unfoldable pub sums : F → F → F → List F → List F → F × F × F
  sums dot norm_a norm_b (x ∷ a) (y ∷ b) =
      sums (float.plus dot (float.times x y)) (float.plus norm_a (float.times x x))
        (float.plus norm_b (float.times y y)) a b
  sums dot norm_a norm_b [] b = (dot, norm_a, norm_b)
  sums dot norm_a norm_b (x ∷ a) [] = (dot, norm_a, norm_b)

  unfoldable pub cosine_similarity : List F → List F → F
  cosine_similarity a b =
      let (dot, norm_a, norm_b) = sums float.zero_float float.zero_float float.zero_float a b in
      if float.equal (sqrt norm_a) float.zero_float || float.equal (sqrt norm_b) float.zero_float
      then float.zero_float
      else float.over dot (float.times (sqrt norm_a) (sqrt norm_b))

pub record CacheEntry (F : Type 0) : Type 0 where
  pub key : Bytes
  pub value : Bytes
  pub embedding : List F
  pub expires_at : ℤ

pub record CacheJson (F : Type 0) : Type 0 where
  pub marshal_entry : CacheEntry F → Option Bytes
  pub unmarshal_entry : Bytes → Option (CacheEntry F)

-- `panicked` is Go's run-time panic.
pub data CacheError (E : Type 0) : Type 0 where
  request_failed : E → CacheError E
  marshal_failed : CacheError E
  panicked : CacheError E

-- A digit of %x.
unfoldable pub hex_digit : ℕ → ℕ
hex_digit n = if ltb n 10 then 48 + n else 87 + n

-- fmt.Sprintf("%x", key)
unfoldable pub hex : Bytes → Bytes
hex [] = []
hex (b ∷ bs) = hex_digit (b / 16) ∷ (hex_digit (b % 16) ∷ hex bs)

-- `[:16]`, which panics on a shorter string.
unfoldable pub key_hash : Bytes → Option Bytes
key_hash key = if ltb (length (hex key)) 16 then none else some (take 16 (hex key))

-- "_cache/<cache>/<hash>"
unfoldable pub cache_prefix : Bytes → Bytes
cache_prefix cache_name = codes "_cache/" ++ (cache_name ++ codes "/")

abbrev pub cache_put_result :
    {S E : Type 0} → Result E (Unit {0}) × S → Result (CacheError E) (Unit {0}) × S
cache_put_result (err e, s) = (err (request_failed e), s)
cache_put_result (ok _, s) = (ok tt, s)

unfoldable pub expiry : ℤ → ℤ → ℤ
expiry now ttl_seconds =
    if ltℤ (ℤ.pos 0) ttl_seconds
    then of_u64 ((to_u64 now + to_u64 ttl_seconds) % 2 ^ 64)
    else ℤ.pos 0

unfoldable pub expired : {F : Type 0} → ℤ → CacheEntry F → Bool
expired now entry = ltℤ (ℤ.pos 0) entry.expires_at && ltℤ entry.expires_at now

module _ {S E F : Type 0} (kv : Kv S E) (json : CacheJson F) where
  unfoldable pub store_entry :
      Bytes → Bytes → Option Bytes → S → Result (CacheError E) (Unit {0}) × S
  store_entry cache_name hash none s = (err marshal_failed, s)
  store_entry cache_name hash (some cache_value) s =
      cache_put_result (kv.kv_put (cache_prefix cache_name ++ hash) cache_value s)

  unfoldable pub put_entry :
      Bytes → Option Bytes → CacheEntry F → S → Result (CacheError E) (Unit {0}) × S
  put_entry cache_name none entry s = (err panicked, s)
  put_entry cache_name (some hash) entry s =
      store_entry cache_name hash (json.marshal_entry entry) s

  unfoldable pub cache_put :
      ℤ → Bytes → Bytes → Bytes → List F → ℤ → S → Result (CacheError E) (Unit {0}) × S
  cache_put now cache_name key value embedding ttl_seconds s =
      put_entry cache_name (key_hash key)
        (record {
          key = key;
          value = value;
          embedding = embedding;
          expires_at = expiry now ttl_seconds;
        })
        s

-- `none` is Go's ("", false, nil).
unfoldable pub best_value : {F : Type 0} → Option (CacheEntry F) × F → Option Bytes
best_value (none, similarity) = none
best_value (some entry, similarity) = some entry.value

module _ {F : Type 0} (float : Float32 F) (json : CacheJson F) where
  -- The tests on an entry before the scores are compared.
  unfoldable pub usable : ℤ → List F → KeyValue → Option (CacheEntry F)
  usable now query kv = elim (json.unmarshal_entry kv.value) [
    | none ↦ none
    | some entry ↦
        if expired now entry
        then none
        else if length entry.embedding == length query
        then some entry
        else none
  ]

  abbrev pub score : List F → CacheEntry F → F
  score query entry = cosine_similarity float query entry.embedding

  -- bestMatch and bestSimilarity after one more usable entry.
  unfoldable pub compare_entry :
      List F → F → CacheEntry F → Option (CacheEntry F) × F → Option (CacheEntry F) × F
  compare_entry query threshold entry (best, best_similarity) =
      if float.at_least (score query entry) threshold
        && float.above (score query entry) best_similarity
      then (some entry, score query entry)
      else (best, best_similarity)

  unfoldable pub improve :
      List F → F → Option (CacheEntry F) → Option (CacheEntry F) × F → Option (CacheEntry F) × F
  improve query threshold none state = state
  improve query threshold (some entry) state = compare_entry query threshold entry state

  unfoldable pub best_match :
      ℤ → List F → F → List KeyValue → Option (CacheEntry F) × F → Option (CacheEntry F) × F
  best_match now query threshold [] state = state
  best_match now query threshold (kv ∷ kvs) state =
      best_match now query threshold kvs (improve query threshold (usable now query kv) state)

  unfoldable pub cache_answer :
      {E : Type 0} → ℤ → List F → F → Result E (List KeyValue) → Result E (Option Bytes)
  cache_answer now query threshold (err e) = err e
  cache_answer now query threshold (ok entries) =
      ok (best_value (best_match now query threshold entries (none, float.minus_one)))

  unfoldable pub cache_get :
      {S E : Type 0} → Kv S E → ℤ → Bytes → List F → F → S → Result E (Option Bytes) × S
  cache_get kv now cache_name query threshold s =
      let (r, s') = kv.kv_scan (cache_prefix cache_name) s in
      (cache_answer now query threshold r, s')
