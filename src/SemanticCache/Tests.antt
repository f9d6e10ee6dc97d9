-- ===== src/SemanticCache/Tests.antt =====
-- The theorems on the cache, at concrete caches.
use sochdb_go.Prelude.{ℕ, ◌≡◌, refl, [], true, false, none, some, if◌then◌else◌, length}
use sochdb_go.Prelude.Int.{pos, of_u64, to_u64}
use sochdb_go.Prelude.Bytes.{Bytes, codes}
use sochdb_go.Prelude.Bytes.Prefix.{has_prefix}
use sochdb_go.Store.Memory.{
  Memory, view_of, put, delete, insert, matching, scan_prefix, delete-LawfulDelete,
  scan_prefix-LawfulScan,
}
use sochdb_go.Queue.Ops.Scan.{keys_where}
use sochdb_go.SemanticCache.{
  SemanticCacheEntry, SemanticCache, CacheDb, new_semantic_cache, add_i64, expired, expired_value,
  is_expired, delete_each, purge_expired,
}
use sochdb_go.SemanticCache.Purging.{purge_expired_removes}

-- Each text is an entry that expired at 160.
abbrev old_entry : Bytes → SemanticCacheEntry ℕ ℕ
old_entry text = record {
  key = text;
  value = text;
  embedding = [];
  timestamp = pos 100;
  ttl = pos 60;
  metadata = 0;
}

abbrev cache_db : CacheDb (Memory Bytes) ℕ ℕ
cache_db = record {
  put = put;
  delete = delete;
  scan = scan_prefix;
  marshal_entry = λ entry. some entry.value;
  unmarshal_entry = λ text. some (old_entry text);
}

abbrev cache : SemanticCache
cache = new_semantic_cache (codes "c")

abbrev one_entry : Memory Bytes
one_entry = (put (codes "cache:c:k") (codes "v") ([], tt)).0

scanned : (scan_prefix cache.prefix one_entry).1 ≡ true
unfolding scan_prefix
scanned = refl

purged : (purge_expired cache_db (pos 161) cache one_entry).0 ≡ none
unfolding purge_expired delete_each delete scan_prefix matching put insert keys_where has_prefix
    new_semantic_cache is_expired expired_value expired add_i64 of_u64 to_u64
purged = refl

purge_expired_removes_example :
    ((purge_expired cache_db (pos 161) cache one_entry).1
      ≡ length (keys_where (is_expired cache_db (pos 161)) (scan_prefix cache.prefix one_entry).0))
    × ((j v : Bytes)
        → has_prefix cache.prefix j ≡ true
        → view_of one_entry j ≡ some v
        → view_of (purge_expired cache_db (pos 161) cache one_entry).2 j
          ≡ (if is_expired cache_db (pos 161) (j, v) then none else some v))
    × ((j : Bytes)
        → has_prefix cache.prefix j ≡ false
        → view_of (purge_expired cache_db (pos 161) cache one_entry).2 j ≡ view_of one_entry j)
purge_expired_removes_example =
    purge_expired_removes cache_db delete-LawfulDelete scan_prefix-LawfulScan (pos 161) cache
      one_entry scanned purged
