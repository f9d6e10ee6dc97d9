-- ===== src/Overlay/Tests.antt =====
-- The theorems on traces, the cache and the graph, over a store in memory.
use sochdb_go.Prelude.{
  ℕ, ◌+◌, ◌-◌, ◌*◌, ◌/◌, ◌<◌, ◌≡◌, refl, ◌↔◌, List, [], ◌∷◌, true, Option, none, some, ltb, leb,
  ◌==◌, if◌then◌else◌, length, take, arith,
}
use sochdb_go.Prelude.Int.{ℤ, to_u64, of_u64}
use sochdb_go.Prelude.Result.{ok, err}
use sochdb_go.Prelude.Bytes.{Bytes, codes}
use sochdb_go.Prelude.Bytes.Order.{bytes_eq}
use sochdb_go.Prelude.Bytes.Prefix.{has_prefix}
use sochdb_go.Wire.Entries.{KeyValue}
use sochdb_go.Overlay.{Kv}
use sochdb_go.Overlay.Laws.{LawfulKv}
use sochdb_go.Overlay.Graph.{edge_prefix, edge_key}
use sochdb_go.Overlay.Graph.Edges.{edge_prefix-edge_key_iff}
use sochdb_go.Overlay.Traces.{
  SpanData, SpanJson, TraceInfo, trace_key, span_key, active_span, sub_i64, start_span, start_root,
  start_trace, end_stored, end_answer, end_span,
}
use sochdb_go.Overlay.Traces.Spans.{Ended, end_span_ends, span_duration, start_trace_stores}
use sochdb_go.Overlay.Cache.{
  Float32, CacheJson, panicked, sqrt_rounds, sqrt, sums, cosine_similarity, usable, expired,
  compare_entry, improve, best_match, best_value, cache_answer, cache_get, cache_put, cache_prefix,
  hex, key_hash,
}
use sochdb_go.Overlay.Cache.Loop.{LawfulFloat}
use sochdb_go.Overlay.Cache.Best.{Answers, cache_get_best}
use sochdb_go.Overlay.Cache.Keys.{cache_put-panicked_iff, key_hash-same}

abbrev Entries : Type 0
Entries = List (Bytes × Bytes)

unfoldable find : Entries → Bytes → Option Bytes
find [] key = none
find ((key', value) ∷ entries) key = if bytes_eq key' key then some value else find entries key

unfoldable all_entries : Entries → List KeyValue
all_entries [] = []
all_entries ((k, v) ∷ entries) = record { key = k; value = v } ∷ all_entries entries

-- Its Scan gives everything: the theorems on scans here do not ask for more.
abbrev kv : Kv Entries ℕ
kv = record {
  kv_get = λ key entries. (ok (find entries key), entries);
  kv_put = λ key value entries. (ok tt, (key, value) ∷ entries);
  kv_scan = λ prefix entries. (ok (all_entries entries), entries);
}

kv-LawfulKv : LawfulKv kv find
unfolding find
kv-LawfulKv = record {
  get-there = λ k v s h. cc;
  get-keeps = λ k j s. refl;
  put-writes = λ k v j s h. refl;
}

abbrev a_span : SpanData
a_span = active_span (codes "s") [] (codes "load") (ℤ.pos 100)

-- Reads every text as the one span of the tests.
abbrev span_json : SpanJson
span_json = record {
  marshal_trace = λ trace_id name start_us root. trace_id;
  marshal_span = λ span. span.span_id;
  unmarshal_span = λ text. some a_span;
}

abbrev store : Entries
store = (span_key (codes "t") (codes "s"), codes "s") ∷ []

end_span_ends_example :
    Ended kv span_json find kv-LawfulKv
      (ℤ.pos 130)
      (codes "t")
      (codes "s")
      (codes "ok")
      store
      (ℤ.pos 30)
      (end_span kv span_json (ℤ.pos 130) (codes "t") (codes "s") (codes "ok") store).1
unfolding end_span end_answer end_stored find span_key bytes_eq sub_i64 active_span to_u64 of_u64
end_span_ends_example =
    end_span_ends kv span_json find kv-LawfulKv (ℤ.pos 130) (codes "t") (codes "s") (codes "ok")
      store (ℤ.pos 30) refl

span_duration_test : ℤ.pos 30 ≡ sub_i64 (ℤ.pos 130) (ℤ.pos 100)
unfolding start_span end_span end_answer end_stored find span_key bytes_eq sub_i64 active_span
    to_u64 of_u64
span_duration_test =
    span_duration kv span_json find kv-LawfulKv (ℤ.pos 100) (ℤ.pos 130) (codes "t") (codes "s") []
      (codes "load") (codes "ok") [] (ℤ.pos 30) refl refl refl

start_trace_stores_test :
    (◌≡◌ {A = TraceInfo}
      (record { trace_id = codes "t"; root_span_id = codes "s" })
      (record { trace_id = codes "t"; root_span_id = codes "s" }))
    × ((j : Bytes)
        → find (start_trace kv span_json (codes "t") (codes "s") (ℤ.pos 5) (codes "n") []).1 j ≡ (
            if bytes_eq (span_key (codes "t") (codes "s")) j
            then some (span_json.marshal_span (active_span (codes "s") [] (codes "n") (ℤ.pos 5)))
            else if bytes_eq (trace_key (codes "t")) j
            then some (span_json.marshal_trace (codes "t") (codes "n") (ℤ.pos 5) (codes "s"))
            else find [] j))
unfolding start_trace start_root
start_trace_stores_test =
    start_trace_stores kv span_json find kv-LawfulKv (codes "t") (codes "s") (ℤ.pos 5) (codes "n")
      [] (record { trace_id = codes "t"; root_span_id = codes "s" }) refl

-- Whole numbers in place of floats.
abbrev whole : Float32 ℕ
whole = record {
  zero_float = 0;
  two = 1;
  minus_one = 0;
  plus = λ x y. x + y;
  minus = λ x y. x - y;
  times = λ x y. x * y;
  over = λ x y. x / y;
  equal = λ x y. x == y;
  above = λ x y. ltb y x;
  at_least = λ x y. leb y x;
}

whole-LawfulFloat : LawfulFloat whole
whole-LawfulFloat = record {
  above-irreflexive = λ x. ground arith;
  above-transitive = λ x y z h k. ground arith;
}

-- Each text is an entry with itself as its value.
abbrev cache_json : CacheJson ℕ
cache_json = record {
  marshal_entry = λ entry. some entry.value;
  unmarshal_entry =
      λ text. some (record { key = []; value = text; embedding = 1 ∷ []; expires_at = ℤ.pos 0 });
}

abbrev cached : Entries
cached = (codes "_cache/c/k", codes "hello") ∷ []

cache_get_best_example :
    (entries : List KeyValue) × ((kv.kv_scan (cache_prefix (codes "c")) cached).0 ≡ ok entries)
    × Answers whole cache_json whole-LawfulFloat (ℤ.pos 7) (1 ∷ []) 1 entries (some (codes "hello"))
unfolding cache_get cache_answer best_match improve compare_entry usable expired cosine_similarity
    sums sqrt sqrt_rounds best_value all_entries
cache_get_best_example =
    cache_get_best whole cache_json whole-LawfulFloat kv (ℤ.pos 7) (codes "c") (1 ∷ []) 1 cached
      (some (codes "hello")) refl

cache_put-panicked_iff_example :
    ((cache_put kv cache_json
        (ℤ.pos 7)
        (codes "c")
        (codes "short")
        (codes "v")
        (1 ∷ [])
        (ℤ.pos 60)
        []).0
      ≡ err panicked)
    ↔ (length (codes "short") < 8)
cache_put-panicked_iff_example =
    cache_put-panicked_iff kv cache_json (ℤ.pos 7) (codes "c") (codes "short") (codes "v") (1 ∷ [])
      (ℤ.pos 60) []

key_hash_test :
    (key_hash (codes "question one") ≡ key_hash (codes "question two"))
    × (key_hash (codes "question one") ≡ some (hex (take 8 (codes "question one"))))
key_hash_test =
    key_hash-same (codes "question one") (codes "question two") (omega arith) (omega arith) refl

edge_prefix_test :
    (has_prefix
        (edge_prefix (codes "n") (codes "a"))
        (edge_key (codes "n") (codes "b") (codes "knows") (codes "c"))
      ≡ true)
    ↔ (codes "a" ≡ codes "b")
edge_prefix_test =
    edge_prefix-edge_key_iff (codes "n") (codes "a") (codes "b") (codes "knows") (codes "c")
      (omega arith) (omega arith)
