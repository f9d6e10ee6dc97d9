-- ===== src/Queue/Key.antt =====
-- The composite key of a queue entry: encodeU64BE to DecodeQueueKey of queue.go.
pub mod RoundTrip
pub mod Shape
pub mod Sorting
use sochdb_go.Prelude.{
  ℕ, zero, suc, ◌+◌, ◌-◌, ◌%◌, ◌^◌, ◌≡◌, refl, List, [], ◌∷◌, ◌++◌, Bool, true, false, Option, none,
  some, ltb, leb, ◌==◌, if◌then◌else◌, ◌&&◌, ◌||◌, not, length, take, drop,
}
use sochdb_go.Prelude.Int.{ℤ, pos, negsuc, to_u64, of_u64}
use sochdb_go.Prelude.Result.{Result, ok, err, ◌>>=◌}
use sochdb_go.Prelude.Bytes.{Bytes, codes}
use sochdb_go.Prelude.Bytes.Order.{bytes_eq}
use sochdb_go.Prelude.Bytes.Endian.{put_be, get_be}

unfoldable pub encode_u64_be : ℕ → Bytes
encode_u64_be value = put_be 8 value

-- The callers pass slices of eight bytes.
unfoldable pub decode_u64_be : Bytes → ℕ
decode_u64_be buf = get_be (take 8 buf)

-- `uint64(value) + (1 << 63)` wraps.
unfoldable pub encode_i64_be : ℤ → Bytes
encode_i64_be value = put_be 8 ((to_u64 value + 2 ^ 63) % 2 ^ 64)

-- `mapped - (1 << 63)` wraps.
unfoldable pub decode_i64_be : Bytes → ℤ
decode_i64_be buf = of_u64 ((get_be (take 8 buf) + 2 ^ 64 - 2 ^ 63) % 2 ^ 64)

pub record QueueKey : Type 0 where
  pub queue_id : Bytes
  pub priority : ℤ
  pub ready_ts : ℤ
  pub sequence : ℕ
  pub task_id : Bytes

abbrev pub slash : ℕ
slash = b'/'

-- "queue/"
abbrev pub key_prefix : Bytes
key_prefix = codes "queue/"

-- The parts, one after the other.
unfoldable pub encode : QueueKey → Bytes
encode qk =
    key_prefix
    ++ (qk.queue_id
        ++ (slash
            ∷ (encode_i64_be qk.priority
                ++ (slash
                    ∷ (encode_u64_be (to_u64 qk.ready_ts)
                        ++ (slash ∷ (encode_u64_be qk.sequence ++ (slash ∷ qk.task_id))))))))

pub data KeyError : Type 0 where
  missing_prefix no_queue_id truncated_priority no_slash_after_priority : KeyError
  truncated_ready_ts no_slash_after_ready_ts : KeyError
  truncated_sequence no_slash_after_sequence : KeyError

-- The boundary is found behind the byte `b`.
abbrev after_byte : ℕ → Option (Bytes × Bytes) → Option (Bytes × Bytes)
after_byte b none = none
after_byte b (some (id, rest)) = some (b ∷ id, rest)

-- The loop for the boundary of the queue id: the bytes before the first '/' that leaves at least 28
-- bytes, and the bytes behind it.
unfoldable pub find_boundary : Bytes → Option (Bytes × Bytes)
find_boundary [] = none
find_boundary (b ∷ rest) =
    let later = find_boundary rest in
    if (b == slash) && leb 28 (length rest) then some ([], rest) else after_byte b later

-- Eight bytes, if there are so many.
unfoldable pub read_field : KeyError → Bytes → Result KeyError (Bytes × Bytes)
read_field e data_left =
    if ltb (length data_left) 8 then err e else ok (take 8 data_left, drop 8 data_left)

unfoldable pub expect_slash : KeyError → Bytes → Result KeyError Bytes
expect_slash e [] = err e
expect_slash e (b ∷ rest) = if b == slash then ok rest else err e

-- What follows the queue id and its '/'.
unfoldable pub decode_fields : Bytes → Bytes → Result KeyError QueueKey
decode_fields queue_id rest = do
  (priority, rest) ← read_field truncated_priority rest
  rest ← expect_slash no_slash_after_priority rest
  (ready_ts, rest) ← read_field truncated_ready_ts rest
  rest ← expect_slash no_slash_after_ready_ts rest
  (sequence, rest) ← read_field truncated_sequence rest
  task_id ← expect_slash no_slash_after_sequence rest
  ok (record {
    queue_id = queue_id;
    priority = decode_i64_be priority;
    ready_ts = of_u64 (decode_u64_be ready_ts);
    sequence = decode_u64_be sequence;
    task_id = task_id;
  })

unfoldable pub decode_queue_key : Bytes → Result KeyError QueueKey
decode_queue_key bytes =
    if ltb (length bytes) 6 || not (bytes_eq (take 6 bytes) key_prefix)
    then err missing_prefix
    else elim (find_boundary (drop 6 bytes)) [
      | none ↦ err no_queue_id
      | some (queue_id, rest) ↦ decode_fields queue_id rest
    ]
