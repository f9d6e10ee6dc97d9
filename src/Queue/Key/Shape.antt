-- ===== src/Queue/Key/Shape.antt =====
-- What the decoder returns, whatever bytes it is given.
use sochdb_go.Prelude.{
  ℕ, ◌+◌, ◌≤◌, ◌<◌, ◌≡◌, refl, ◌↔◌, [], ◌∷◌, Option, none, some, ap, length, drop, length-drop,
  arith, Bool-cases, inl, inr, ltb, leb, take, ◌==◌, ◌&&◌, ◌||◌, not,
}
use sochdb_go.Prelude.Int.{IsI64, IsU64}
use sochdb_go.Prelude.Result.{Result, ok, err, ◌>>=◌, bind-ok}
use sochdb_go.Prelude.Bytes.{Bytes}
use sochdb_go.Prelude.Bytes.Order.{bytes_eq}
use sochdb_go.Queue.Key.{
  QueueKey, KeyError, slash, encode, find_boundary, read_field, expect_slash, decode_fields,
  decode_queue_key, after_byte, key_prefix, no_queue_id,
}
use sochdb_go.Queue.Key.RoundTrip.{Lacks, decode-encode}

-- The boundary is this '/', or one found behind this byte.
data Boundary (b : ℕ) (bs id rest : Bytes) : Type 0 where
  here : b ≡ slash → 28 ≤ length bs → id ≡ [] → rest ≡ bs → Boundary b bs id rest
  later :
      (id' : Bytes)
      → (b ≡ slash → length bs < 28)
      → find_boundary bs ≡ some (id', rest)
      → id ≡ b ∷ id'
      → Boundary b bs id rest

after_byte-some :
    (b : ℕ) (o : Option (Bytes × Bytes)) {id rest : Bytes}
    → after_byte b o ≡ some (id, rest)
    → (id' : Bytes) × (o ≡ some (id', rest)) × (id ≡ b ∷ id')
after_byte-some b none h = cc
after_byte-some b (some (id', rest')) h = (id', ground arith, ground arith)

find_boundary-cons :
    (b : ℕ) (bs id rest : Bytes) → find_boundary (b ∷ bs) ≡ some (id, rest) → Boundary b bs id rest
unfolding find_boundary
find_boundary-cons b bs id rest h = elim (Bool-cases ((b == slash) && leb 28 (length bs))) [
  | inl found ↦ here (ground arith) (ground arith) (ground arith) (ground arith)
  | inr passed ↦
      let (id', e, f) = after_byte-some b (find_boundary bs) (rw passed at h) in
      later id' (ground arith) e f
]

find_boundary_room :
    (bs id rest : Bytes)
    → find_boundary bs ≡ some (id, rest)
    → (28 ≤ length rest) × (length rest < length bs)
find_boundary_room [] id rest h = unfold find_boundary in cc
find_boundary_room (b ∷ bs) id rest h = elim (find_boundary-cons b bs id rest h) [
  | here e l i r ↦ ground (arith, ap length r)
  | later id' p e i ↦ omega (arith, find_boundary_room bs id' rest e)
]

-- The boundary is the first '/': the bytes before it have none.
find_boundary-Lacks : (bs id rest : Bytes) → find_boundary bs ≡ some (id, rest) → Lacks slash id
find_boundary-Lacks [] id rest h = unfold find_boundary in cc
find_boundary-Lacks (b ∷ bs) id rest h = elim (find_boundary-cons b bs id rest h) [
  | here e l i r ↦ rw i tt
  | later id' p e i ↦ rw i (
    (λ s. absurd (omega (arith, p s, find_boundary_room bs id' rest e))),
    find_boundary-Lacks bs id' rest e,
  )
]

expect_slash_shape :
    (e : KeyError) (bs rest : Bytes) → expect_slash e bs ≡ ok rest → bs ≡ slash ∷ rest
unfolding expect_slash
expect_slash_shape e [] rest h = cc
expect_slash_shape e (b ∷ bs) rest h = ground arith

length-read_field :
    (e : KeyError) (bs field rest : Bytes)
    → read_field e bs ≡ ok (field, rest)
    → length bs ≡ 8 + length rest
unfolding read_field
length-read_field e bs field rest h = ground (arith, length-drop 8 bs)

-- Eight bytes and a '/' were read.
field_and_slash :
    {A P : Type 0} (e e' : KeyError) (bs : Bytes) (k : Bytes → Bytes → Result KeyError A) {x : A}
    → (read_field e bs >>= λ p. expect_slash e' p.1 >>= k p.0) ≡ ok x
    → ((field rest : Bytes) → length bs ≡ 9 + length rest → k field rest ≡ ok x → P)
    → P
field_and_slash e e' bs k h use_it = bind-ok (read_field e bs) _ h λ p e1 h1.
    bind-ok (expect_slash e' p.1) _ h1 λ rest e2 h2.
      use_it p.0 rest
        (omega
          (arith, length-read_field e bs p.0 p.1 e1, ap length (expect_slash_shape e' p.1 rest e2)))
        h2

decode_fields_shape :
    (id bs : Bytes) (qk : QueueKey)
    → decode_fields id bs ≡ ok qk
    → (qk.queue_id ≡ id) × (length bs ≡ 27 + length qk.task_id)
unfolding decode_fields
decode_fields_shape id bs qk h = field_and_slash _ _ bs _ h λ p r1 l1 h1.
    field_and_slash _ _ r1 _ h1 λ t r2 l2 h2. field_and_slash _ _ r2 _ h2 λ s r3 l3 h3. ground arith

-- A key that is decoded from any bytes has a queue id without '/' and a task id that is not empty.
pub decode_queue_key_shape :
    (bytes : Bytes) (qk : QueueKey)
    → decode_queue_key bytes ≡ ok qk
    → Lacks slash qk.queue_id × (0 < length qk.task_id)
unfolding decode_queue_key
decode_queue_key_shape bytes qk h =
    elim (Bool-cases (ltb (length bytes) 6 || not (bytes_eq (take 6 bytes) key_prefix))) [
      | inl bad ↦ cc (rw bad at h)
      | inr good ↦ behind (find_boundary (drop 6 bytes)) refl (rw good at h)
    ]
  where
    behind :
        (o : Option (Bytes × Bytes))
        → find_boundary (drop 6 bytes) ≡ o
        → (elim o [ none ↦ err no_queue_id | some (queue_id, rest) ↦ decode_fields queue_id rest ])
          ≡ ok qk
        → Lacks slash qk.queue_id × (0 < length qk.task_id)
    behind none e h = cc
    behind (some (id, rest)) e h =
        let (i, l) = decode_fields_shape id rest qk h in
        (
          rw i (find_boundary-Lacks (drop 6 bytes) id rest e),
          omega (arith, find_boundary_room (drop 6 bytes) id rest e),
        )

-- A key with numbers in range is read back as it was written exactly when its queue id has no '/'
-- and its task id is not empty.
pub decode-encode_iff :
    (qk : QueueKey)
    → IsI64 qk.priority
    → IsI64 qk.ready_ts
    → IsU64 qk.sequence
    → (decode_queue_key (encode qk) ≡ ok qk) ↔ (Lacks slash qk.queue_id × (0 < length qk.task_id))
decode-encode_iff qk hp hr hs =
    (decode_queue_key_shape (encode qk) qk, λ w. decode-encode qk w.0 w.1 hp hr hs)
