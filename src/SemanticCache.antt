-- ===== src/SemanticCache.antt =====
-- The cache of semantic_cache.go, over the writes and the scans of the database: `scan` is the loop over
-- the iterator that txn.ScanPrefix gives, in a transaction of its own; its error is not looked at.
pub mod Purging
mod Tests
use sochdb_go.Prelude.{
  ℕ, zero, suc, ◌+◌, ◌%◌, ◌^◌, List, [], ◌∷◌, ◌++◌, Bool, true, false, ◌&&◌, ◌||◌, not, Option,
  none, some, ◌==◌, if◌then◌else◌, length,
}
use sochdb_go.Prelude.Int.{ℤ, pos, ltℤ, to_u64, of_u64}
use sochdb_go.Prelude.Result.{Result, ok, err}
use sochdb_go.Prelude.Bytes.{Bytes, codes}
use sochdb_go.Queue.Ops.Scan.{keys_where}

-- Metadata is of an abstract type `V`, a float32 of the type `F`.
pub record SemanticCacheEntry (F V : Type 0) : Type 0 where
  pub key : Bytes
  pub value : Bytes
  pub embedding : List F
  pub timestamp : ℤ
  pub ttl : ℤ
  pub metadata : V

pub record SemanticCacheHit (F V : Type 0) : Type 0 where
  pub entry : SemanticCacheEntry F V
  pub score : F

pub record SemanticCacheStats : Type 0 where
  pub count : ℕ
  pub hits : ℕ
  pub misses : ℕ
  pub memory_usage : ℕ

pub record SemanticCache : Type 0 where
  pub cache_name : Bytes
  pub prefix : Bytes
  pub hits : ℕ
  pub misses : ℕ

unfoldable pub new_semantic_cache : Bytes → SemanticCache
new_semantic_cache cache_name = record {
  cache_name = cache_name;
  prefix = codes "cache:" ++ (cache_name ++ codes ":");
  hits = 0;
  misses = 0;
}

pub data CacheError : Type 0 where
  marshal_failed database_failed : CacheError

-- The database, and encoding/json on entries.
pub record CacheDb (S F V : Type 0) : Type 0 where
  pub put : Bytes → Bytes → S → S × Bool
  pub delete : Bytes → S → S × Bool
  pub scan : Bytes → S → List (Bytes × Bytes) × Bool
  pub marshal_entry : SemanticCacheEntry F V → Option Bytes
  pub unmarshal_entry : Bytes → Option (SemanticCacheEntry F V)

-- The sum of two int64 values.
unfoldable pub add_i64 : ℤ → ℤ → ℤ
add_i64 a b = of_u64 ((to_u64 a + to_u64 b) % 2 ^ 64)

-- float32; `root` is math.Sqrt on float64, and back.
pub record FloatOps (F : Type 0) : Type 0 where
  pub zero_float : F
  pub plus : F → F → F
  pub times : F → F → F
  pub over : F → F → F
  pub root : F → F
  pub is_zero : F → Bool
  -- >
  pub above : F → F → Bool

module _ {F : Type 0} (ops : FloatOps F) where
  unfoldable pub sums : F → F → F → List F → List F → F × F × F
  sums dot norm_a norm_b (x ∷ a) (y ∷ b) =
      sums (ops.plus dot (ops.times x y)) (ops.plus norm_a (ops.times x x))
        (ops.plus norm_b (ops.times y y)) a b
  sums dot norm_a norm_b [] b = (dot, norm_a, norm_b)
  sums dot norm_a norm_b (x ∷ a) [] = (dot, norm_a, norm_b)

  -- None where the lengths differ.
  unfoldable pub semantic_cosine_similarity : List F → List F → Option F
  semantic_cosine_similarity a b =
      let (dot, norm_a, norm_b) = sums ops.zero_float ops.zero_float ops.zero_float a b in
      if not (length a == length b)
      then none
      else if ops.is_zero norm_a || ops.is_zero norm_b
      then some ops.zero_float
      else some (ops.over dot (ops.times (ops.root norm_a) (ops.root norm_b)))

module _ {F V : Type 0} where
  -- TTL and Timestamp are set, and now > Timestamp + TTL.
  unfoldable pub expired : ℤ → SemanticCacheEntry F V → Bool
  expired now entry =
      ltℤ (pos 0) entry.ttl
      && (ltℤ (pos 0) entry.timestamp && ltℤ (add_i64 entry.timestamp entry.ttl) now)

  -- Of a value of the scan: it can be read and is expired.
  unfoldable pub expired_value : ℤ → Option (SemanticCacheEntry F V) → Bool
  expired_value now none = false
  expired_value now (some entry) = expired now entry

  -- It can be read and is not expired.
  unfoldable pub live_value : ℤ → Option (SemanticCacheEntry F V) → Bool
  live_value now none = false
  live_value now (some entry) = if expired now entry then false else true

-- The deletions one by one, up to the first that fails, and how many were done.
unfoldable pub delete_each :
    {S : Type 0} → (Bytes → S → S × Bool) → List Bytes → ℕ → S → Option CacheError × ℕ × S
delete_each delete [] done s = (none, done, s)
delete_each delete (key ∷ keys) done s =
    let (s', fine) = delete key s in
    let rest = delete_each delete keys (suc done) s' in
    if fine then rest else (some database_failed, done, s')

abbrev pub put_result : {S : Type 0} → S × Bool → Result CacheError (Unit {0}) × S
put_result (s, true) = (ok tt, s)
put_result (s, false) = (err database_failed, s)

module _ {S F V : Type 0} (db : CacheDb S F V) where
  unfoldable pub put_entry : Bytes → Option Bytes → S → Result CacheError (Unit {0}) × S
  put_entry key none s = (err marshal_failed, s)
  put_entry key (some value) s = put_result (db.put key value s)

  unfoldable pub put :
      Bytes → Bytes → List F → ℤ → V → ℤ → SemanticCache → S → Result CacheError (Unit {0}) × S
  put key value embedding ttl_seconds metadata now c = put_entry (c.prefix ++ key) (
      db.marshal_entry (record {
        key = key;
        value = value;
        embedding = embedding;
        timestamp = now;
        ttl = ttl_seconds;
        metadata = metadata;
      }))

  unfoldable pub delete : Bytes → SemanticCache → S → Result CacheError (Unit {0}) × S
  delete key c s = put_result (db.delete (c.prefix ++ key) s)

  -- The stats are not reset after an error.
  abbrev pub clear_result :
      SemanticCache → Option CacheError × ℕ × S → Option CacheError × ℕ × SemanticCache × S
  clear_result c (none, deleted, s) = (none, deleted, record c { hits = 0; misses = 0 }, s)
  clear_result c (some e, deleted, s) = (some e, deleted, c, s)

  unfoldable pub clear : SemanticCache → S → Option CacheError × ℕ × SemanticCache × S
  clear c s =
      clear_result c (delete_each db.delete (keys_where (λ _. true) (db.scan c.prefix s).0) 0 s)

  -- Whether an entry of the scan can be read and is expired.
  unfoldable pub is_expired : ℤ → Bytes × Bytes → Bool
  is_expired now entry = expired_value now (db.unmarshal_entry entry.1)

  unfoldable pub purge_expired : ℤ → SemanticCache → S → Option CacheError × ℕ × S
  purge_expired now c s =
      delete_each db.delete (keys_where (is_expired now) (db.scan c.prefix s).0) 0 s

  unfoldable pub live_count : ℤ → List (Bytes × Bytes) → ℕ × ℕ
  live_count now [] = (0, 0)
  live_count now ((key, value) ∷ entries) =
      let (count, usage) = live_count now entries in
      if live_value now (db.unmarshal_entry value)
      then (suc count, length key + length value + usage)
      else (count, usage)

  -- The hit rate is a quotient of floats, and left out.
  unfoldable pub stats : ℤ → SemanticCache → S → SemanticCacheStats
  stats now c s =
      let (count, usage) = live_count now (db.scan c.prefix s).0 in
      record { count = count; hits = c.hits; misses = c.misses; memory_usage = usage }

  -- Get's loop.
  module _ (ops : FloatOps F) (query : List F) where
    unfoldable pub better :
        Option F
        → SemanticCacheEntry F V
        → F × Option (SemanticCacheHit F V)
        → F × Option (SemanticCacheHit F V)
    better none entry best = best
    better (some score) entry best =
        if ops.above score best.0
        then (score, some (record { entry = entry; score = score }))
        else best

    unfoldable pub consider :
        ℤ
        → Option (SemanticCacheEntry F V)
        → F × Option (SemanticCacheHit F V)
        → F × Option (SemanticCacheHit F V)
    consider now none best = best
    consider now (some entry) best =
        if expired now entry
        then best
        else better (semantic_cosine_similarity ops query entry.embedding) entry best

    unfoldable pub best_of :
        ℤ
        → List (Bytes × Bytes)
        → F × Option (SemanticCacheHit F V)
        → F × Option (SemanticCacheHit F V)
    best_of now [] best = best
    best_of now ((key, value) ∷ entries) best =
        best_of now entries (consider now (db.unmarshal_entry value) best)

    abbrev pub counted :
        Option (SemanticCacheHit F V)
        → SemanticCache
        → Option (SemanticCacheHit F V) × SemanticCache
    counted none c = (none, record c { misses = suc c.misses })
    counted (some hit) c = (some hit, record c { hits = suc c.hits })

    unfoldable pub get : ℤ → F → SemanticCache → S → Option (SemanticCacheHit F V) × SemanticCache
    get now threshold c s = counted (best_of now (db.scan c.prefix s).0 (threshold, none)).1 c
