-- ===== src/Wire/Entries.antt =====
-- The payloads of SCAN and QUERY responses: the loops of readScanResponse and readQueryResponse.
pub mod RoundTrip
pub mod Safety
use sochdb_go.Prelude.{
  ℕ, zero, suc, ◌+◌, ◌-◌, List, [], ◌∷◌, ◌++◌, Bool, true, false, ltb, leb, ◌&&◌, if◌then◌else◌,
  length, take, drop,
}
use sochdb_go.Prelude.Bytes.{Bytes}
use sochdb_go.Prelude.Bytes.Endian.{put_le, get_le}

pub record KeyValue : Type 0 where
  pub key : Bytes
  pub value : Bytes

-- Where the response was found too short. (A query response has one message for all three.)
pub data Truncated : Type 0 where
  key_len key_and_value_len value_bytes : Truncated

-- `panic` is Go's run-time panic of a slice out of range.
pub data Parsed (A : Type 0) : Type 0 where
  done : A → Parsed A
  failed : Truncated → Parsed A
  panic : Parsed A

infixl 5 ◌>>=◌ ◌>>◌
abbrev pub ◌>>=◌ : {A B : Type 0} → Parsed A → (A → Parsed B) → Parsed B
panic >>= next = panic
failed e >>= next = failed e
done a >>= next = next a

abbrev pub ◌>>◌ : {B : Type 0} → Parsed (Unit {0}) → Parsed B → Parsed B
first >> next = first >>= λ _. next

-- payload[from:to]
unfoldable pub slice : Bytes → ℕ → ℕ → Parsed Bytes
slice payload from to =
    if leb from to && leb to (length payload)
    then done (take (to - from) (drop from payload))
    else panic

-- `if size > len(payload) { return ... }`
unfoldable pub need : Bytes → ℕ → Truncated → Parsed (Unit {0})
need payload size e = if ltb (length payload) size then failed e else done tt

-- One round of the loop from `offset` on, and the offset behind it. `width` is the number of bytes
-- of a key length: 2 in a scan response, 4 in a query response.
unfoldable pub parse_entry : ℕ → Bytes → ℕ → Parsed (KeyValue × ℕ)
parse_entry width payload offset = do
  need payload (offset + width) key_len
  key_len_bytes ← slice payload offset (offset + width)
  let at_key = offset + width
  let at_value_len = at_key + get_le key_len_bytes
  need payload (at_value_len + 4) key_and_value_len
  key ← slice payload at_key at_value_len
  value_len_bytes ← slice payload at_value_len (at_value_len + 4)
  let at_value = at_value_len + 4
  let end = at_value + get_le value_len_bytes
  need payload end value_bytes
  value ← slice payload at_value end
  done (record { key = key; value = value }, end)

-- The loop; the count of rounds is what the response says.
unfoldable pub parse_entries : ℕ → ℕ → Bytes → ℕ → Parsed (List KeyValue)
parse_entries width zero payload offset = done []
parse_entries width (suc count) payload offset = do
  (entry, offset') ← parse_entry width payload offset
  rest ← parse_entries width count payload offset'
  done (entry ∷ rest)

-- A payload of less than four bytes is an empty result.
unfoldable pub parse_response : ℕ → Bytes → Parsed (List KeyValue)
parse_response width payload =
    if ltb (length payload) 4
    then done []
    else slice payload 0 4 >>= λ count. parse_entries width (get_le count) payload 4

-- The formats that the comments above the loops document:
-- count(4 LE) + [key_len(width LE) + key + value_len(4 LE) + value]...
unfoldable pub format_entry : ℕ → KeyValue → Bytes
format_entry width kv =
    put_le width (length kv.key) ++ (kv.key ++ (put_le 4 (length kv.value) ++ kv.value))

unfoldable pub format_entries : ℕ → List KeyValue → Bytes
format_entries width [] = []
format_entries width (kv ∷ kvs) = format_entry width kv ++ format_entries width kvs

unfoldable pub format_response : ℕ → List KeyValue → Bytes
format_response width kvs = put_le 4 (length kvs) ++ format_entries width kvs
