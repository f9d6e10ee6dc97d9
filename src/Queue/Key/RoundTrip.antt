-- ===== src/Queue/Key/RoundTrip.antt =====
-- Keys that are written are read back.
use sochdb_go.Prelude.{
  ℕ, ◌+◌, ◌-◌, ◌%◌, ◌^◌, ◌≤◌, ◌<◌, ◌≡◌, refl, ◌∙◌, ◌≢◌, [], ◌∷◌, ◌++◌, none, some, length, take,
  length-append, take_left, drop_left, All, arith, append-nil,
}
use sochdb_go.Prelude.Int.{ℤ, to_u64, IsI64, IsU64, of_u64-to_u64, to_u64-IsU64}
use sochdb_go.Prelude.Result.{ok, err}
use sochdb_go.Prelude.Bytes.{Bytes}
use sochdb_go.Prelude.Bytes.Order.{bytes_eq}
use sochdb_go.Prelude.Bytes.Endian.{put_be, length-put_be, get_be-put_be}
use sochdb_go.Queue.Key.{
  QueueKey, KeyError, slash, encode, encode_u64_be, encode_i64_be, decode_u64_be, decode_i64_be,
  find_boundary, read_field, expect_slash, decode_fields, decode_queue_key, no_queue_id,
}

take_eight : (v : ℕ) → take 8 (put_be 8 v) ≡ put_be 8 v
take_eight v = rw append-nil at (take_left 8 (put_be 8 v) [] (length-put_be 8 v))

pub decode_u64_be-encode_u64_be : (v : ℕ) → IsU64 v → decode_u64_be (encode_u64_be v) ≡ v
unfolding decode_u64_be encode_u64_be
decode_u64_be-encode_u64_be v h = rw (take_eight v) (get_be-put_be 8 v h)

shift_back : (n : ℕ) → IsU64 n → ((n + 2 ^ 63) % 2 ^ 64 + 2 ^ 64 - 2 ^ 63) % 2 ^ 64 ≡ n
shift_back n h = omega arith

pub decode_i64_be-encode_i64_be : (z : ℤ) → IsI64 z → decode_i64_be (encode_i64_be z) ≡ z
unfolding decode_i64_be encode_i64_be
decode_i64_be-encode_i64_be z h = rw (take_eight ((to_u64 z + 2 ^ 63) % 2 ^ 64)) (
    rw (get_be-put_be 8 ((to_u64 z + 2 ^ 63) % 2 ^ 64) (omega arith))
      (rw (shift_back (to_u64 z) (to_u64-IsU64 z)) (of_u64-to_u64 z h)))

read_field-put_be :
    (e : KeyError) (v : ℕ) (rest : Bytes)
    → read_field e (put_be 8 v ++ rest) ≡ ok (put_be 8 v, rest)
unfolding read_field
read_field-put_be e v rest =
    rw
      (
        take_left 8 (put_be 8 v) rest (length-put_be 8 v),
        drop_left 8 (put_be 8 v) rest (length-put_be 8 v),
      )
      (ground (arith, length-append {0} (put_be 8 v) rest, length-put_be 8 v))

read_field-encode_u64_be :
    (e : KeyError) (v : ℕ) (rest : Bytes)
    → read_field e (encode_u64_be v ++ rest) ≡ ok (encode_u64_be v, rest)
unfolding encode_u64_be
read_field-encode_u64_be e v rest = read_field-put_be e v rest

read_field-encode_i64_be :
    (e : KeyError) (z : ℤ) (rest : Bytes)
    → read_field e (encode_i64_be z ++ rest) ≡ ok (encode_i64_be z, rest)
unfolding encode_i64_be
read_field-encode_i64_be e z rest = read_field-put_be e _ rest

expect_slash-slash : (e : KeyError) (rest : Bytes) → expect_slash e (slash ∷ rest) ≡ ok rest
unfolding expect_slash
expect_slash-slash e rest = refl

abbrev pub Lacks : ℕ → Bytes → Type 0
Lacks b = All (λ c. c ≢ b)

find_boundary-append :
    (id rest : Bytes)
    → Lacks slash id
    → 28 ≤ length rest
    → find_boundary (id ++ (slash ∷ rest)) ≡ some (id, rest)
unfolding find_boundary
find_boundary-append [] rest h l = ground arith
find_boundary-append (b ∷ id) rest (hb, h) l = ground (arith, find_boundary-append id rest h l)

-- What stands behind the queue id and its '/'.
abbrev fields : QueueKey → Bytes
fields qk =
    encode_i64_be qk.priority
    ++ (slash
        ∷ (encode_u64_be (to_u64 qk.ready_ts)
            ++ (slash ∷ (encode_u64_be qk.sequence ++ (slash ∷ qk.task_id)))))

length-fields : (qk : QueueKey) → length (fields qk) ≡ 27 + length qk.task_id
unfolding encode_i64_be encode_u64_be
length-fields qk = simp (length-append, length-put_be) (omega arith)

pub decode_fields-fields :
    (id : Bytes) (qk : QueueKey)
    → IsI64 qk.priority
    → IsI64 qk.ready_ts
    → IsU64 qk.sequence
    → decode_fields id (fields qk) ≡ ok (record qk { queue_id = id })
unfolding decode_fields
decode_fields-fields id qk hp hr hs = simp (
  read_field-encode_i64_be,
  read_field-encode_u64_be,
  expect_slash-slash,
  decode_i64_be-encode_i64_be qk.priority hp,
  decode_u64_be-encode_u64_be (to_u64 qk.ready_ts) (to_u64-IsU64 qk.ready_ts),
  of_u64-to_u64 qk.ready_ts hr,
  decode_u64_be-encode_u64_be qk.sequence hs,
)

-- What the decoder does with a written key: it looks for the boundary behind the prefix.
decode_queue_key-encode :
    (qk : QueueKey)
    → decode_queue_key (encode qk) ≡ (elim (find_boundary (qk.queue_id ++ (slash ∷ fields qk))) [
      | none ↦ err no_queue_id
      | some (queue_id, rest) ↦ decode_fields queue_id rest
    ])
unfolding decode_queue_key encode bytes_eq
decode_queue_key-encode qk = ground arith

-- A key whose queue id has no '/', whose task id is not empty and whose numbers are in range is
-- read back as it was written.
pub decode-encode :
    (qk : QueueKey)
    → Lacks slash qk.queue_id
    → 0 < length qk.task_id
    → IsI64 qk.priority
    → IsI64 qk.ready_ts
    → IsU64 qk.sequence
    → decode_queue_key (encode qk) ≡ ok qk
decode-encode qk hq ht hp hr hs =
    decode_queue_key-encode qk
    ∙ rw (find_boundary-append qk.queue_id (fields qk) hq (omega (arith, length-fields qk)))
        (decode_fields-fields qk.queue_id qk hp hr hs)
