-- ===== src/Queue/Key/Sorting.antt =====
-- The order of the written keys.
use sochdb_go.Prelude.{ℕ, ◌+◌, ◌%◌, ◌^◌, ◌≡◌, ap, ◌∙◌, ◌∷◌, ◌++◌, compare, Ordering, then_by, arith}
use sochdb_go.Prelude.Int.{ℤ, pos, negsuc, IsI64, IsU64, to_u64, to_u64-IsU64, compareℤ}
use sochdb_go.Prelude.Bytes.{Bytes}
use sochdb_go.Prelude.Bytes.Order.{cmp_bytes, cmp_bytes-append_same}
use sochdb_go.Prelude.Bytes.Endian.{cmp_bytes-put_be}
use sochdb_go.Queue.Key.{QueueKey, encode, encode_i64_be, encode_u64_be}

-- Shifting by 2^63 turns the order of the signed integers into that of the unsigned ones.
compare-shift :
    (a b : ℤ)
    → IsI64 a
    → IsI64 b
    → compare ((to_u64 a + 2 ^ 63) % 2 ^ 64) ((to_u64 b + 2 ^ 63) % 2 ^ 64) ≡ compareℤ a b
unfolding to_u64
compare-shift (pos a) (pos b) ha hb = ground arith
compare-shift (pos a) (negsuc b) ha hb = ground arith
compare-shift (negsuc a) (pos b) ha hb = ground arith
compare-shift (negsuc a) (negsuc b) ha hb = ground arith

-- The order of encoded priorities is that of the int64 priorities, negative ones included.
pub cmp_bytes-encode_i64_be :
    (a b : ℤ) (xs ys : Bytes)
    → IsI64 a
    → IsI64 b
    → cmp_bytes (encode_i64_be a ++ xs) (encode_i64_be b ++ ys)
      ≡ then_by (compareℤ a b) (cmp_bytes xs ys)
unfolding encode_i64_be
cmp_bytes-encode_i64_be a b xs ys ha hb =
    cmp_bytes-put_be 8 _ _ xs ys (omega arith) (omega arith)
    ∙ ap (λ o. then_by o (cmp_bytes xs ys)) (compare-shift a b ha hb)

pub cmp_bytes-encode_u64_be :
    (a b : ℕ) (xs ys : Bytes)
    → IsU64 a
    → IsU64 b
    → cmp_bytes (encode_u64_be a ++ xs) (encode_u64_be b ++ ys)
      ≡ then_by (compare a b) (cmp_bytes xs ys)
unfolding encode_u64_be
cmp_bytes-encode_u64_be a b xs ys ha hb = cmp_bytes-put_be 8 a b xs ys ha hb

cmp_bytes-cons_same : (b : ℕ) (xs ys : Bytes) → cmp_bytes (b ∷ xs) (b ∷ ys) ≡ cmp_bytes xs ys
unfolding cmp_bytes
cmp_bytes-cons_same b xs ys = ground arith

-- What the fields of two keys say: the priority first, then the time, the sequence number and the
-- task id.
abbrev pub urgency : QueueKey → QueueKey → Ordering
urgency a b = then_by (compareℤ a.priority b.priority) (
    then_by (compare (to_u64 a.ready_ts) (to_u64 b.ready_ts))
      (then_by (compare a.sequence b.sequence) (cmp_bytes a.task_id b.task_id)))

-- Two keys of one queue, their numbers in range, are ordered by their bytes as their fields are:
-- by priority (as signed numbers), then by the ready time (as the unsigned bits), then by sequence
-- number, then by task id.
pub cmp_bytes-encode :
    (a b : QueueKey)
    → a.queue_id ≡ b.queue_id
    → IsI64 a.priority
    → IsI64 b.priority
    → IsU64 a.sequence
    → IsU64 b.sequence
    → cmp_bytes (encode a) (encode b) ≡ urgency a b
unfolding encode
cmp_bytes-encode a b e pa pb sa sb = rw e (
    simp (
      cmp_bytes-append_same,
      cmp_bytes-cons_same,
      cmp_bytes-encode_i64_be a.priority b.priority _ _ pa pb,
      cmp_bytes-encode_u64_be (to_u64 a.ready_ts) (to_u64 b.ready_ts) _ _ (to_u64-IsU64 a.ready_ts)
          (to_u64-IsU64 b.ready_ts),
      cmp_bytes-encode_u64_be a.sequence b.sequence _ _ sa sb,
    ))
