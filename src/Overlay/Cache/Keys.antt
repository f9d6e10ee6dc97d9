-- ===== src/Overlay/Cache/Keys.antt =====
-- The storage keys of CachePut.
use sochdb_go.Prelude.{
  ℕ, zero, suc, ◌*◌, ◌<◌, ◌≤◌, ◌≡◌, ◌≢◌, refl, sym, ap, ◌∙◌, ◌↔◌, List, [], ◌∷◌, false, Option,
  none, some, ltb, length, take, arith,
}
use sochdb_go.Prelude.Int.{ℤ}
use sochdb_go.Prelude.Result.{Result, ok, err}
use sochdb_go.Prelude.Bytes.{Bytes}
use sochdb_go.Overlay.{Kv}
use sochdb_go.Overlay.Cache.{
  CacheEntry, CacheJson, panicked, hex, key_hash, expiry, store_entry, put_entry, cache_put_result,
  cache_put,
}

length-hex : (key : Bytes) → length (hex key) ≡ 2 * length key
unfolding hex
length-hex [] = refl
length-hex (b ∷ bs) = omega (arith, length-hex bs)

-- The first bytes of a key determine the first digits.
abbrev double : ℕ → ℕ
double zero = zero
double (suc n) = suc (suc (double n))

take-hex : (n : ℕ) (key : Bytes) → take (double n) (hex key) ≡ hex (take n key)
unfolding hex
take-hex zero key = refl
take-hex (suc n) [] = refl
take-hex (suc n) (b ∷ bs) = rw (take-hex n bs) refl

key_hash-none_iff : (key : Bytes) → (key_hash key ≡ none) ↔ (length key < 8)
unfolding key_hash
key_hash-none_iff key = ground (arith, length-hex key)

cache_put_result-ne-panicked :
    {S E : Type 0} (p : Result E (Unit {0}) × S) → (cache_put_result p).0 ≢ err panicked
cache_put_result-ne-panicked (err e, s) = λ h. cc
cache_put_result-ne-panicked (ok _, s) = λ h. cc

module _ {S E F : Type 0} (kv : Kv S E) (json : CacheJson F) where
  store_entry-ne-panicked :
      (cache_name hash : Bytes) (cache_value : Option Bytes) (s : S)
      → (store_entry kv json cache_name hash cache_value s).0 ≢ err panicked
  unfolding store_entry
  store_entry-ne-panicked cache_name hash none s = λ h. cc
  store_entry-ne-panicked cache_name hash (some cache_value) s = cache_put_result-ne-panicked _

  put_entry-panicked_iff :
      (cache_name : Bytes) (hash : Option Bytes) (entry : CacheEntry F) (s : S)
      → ((put_entry kv json cache_name hash entry s).0 ≡ err panicked) ↔ (hash ≡ none)
  unfolding put_entry
  put_entry-panicked_iff cache_name none entry s = ((λ _. refl), (λ _. refl))
  put_entry-panicked_iff cache_name (some hash) entry s = (
    (λ h. absurd (store_entry-ne-panicked cache_name hash (json.marshal_entry entry) s h)),
    (λ h. absurd (cc)),
  )

  -- CachePut panics exactly on a key of fewer than eight bytes, whatever the store does.
  pub cache_put-panicked_iff :
      (now : ℤ) (cache_name key value : Bytes) (embedding : List F) (ttl_seconds : ℤ) (s : S)
      → ((cache_put kv json now cache_name key value embedding ttl_seconds s).0 ≡ err panicked)
        ↔ (length key < 8)
  unfolding cache_put
  cache_put-panicked_iff now cache_name key value embedding ttl_seconds s =
      let (to, from) =
        put_entry-panicked_iff cache_name (key_hash key)
          (record {
            key = key;
            value = value;
            embedding = embedding;
            expires_at = expiry now ttl_seconds;
          })
          s in
      let (to_short, from_short) = key_hash-none_iff key in
      ((λ h. to_short (to h)), (λ h. from (from_short h)))

-- Two keys of at least eight bytes that agree on the first eight are stored under one key.
pub key_hash-same :
    (key key' : Bytes)
    → 8 ≤ length key
    → 8 ≤ length key'
    → take 8 key ≡ take 8 key'
    → (key_hash key ≡ key_hash key') × (key_hash key ≡ some (hex (take 8 key)))
unfolding key_hash
key_hash-same key key' long long' same =
    let e : ltb (length (hex key)) 16 ≡ false = ground (arith, length-hex key) in
    let e' : ltb (length (hex key')) 16 ≡ false = ground (arith, length-hex key') in
    let digits : take 16 (hex key) ≡ hex (take 8 key) = take-hex 8 key in
    let digits' : take 16 (hex key') ≡ hex (take 8 key') = take-hex 8 key' in
    (rw (e, e') (ap some (digits ∙ ap hex same ∙ sym digits')), rw e (ap some digits))
