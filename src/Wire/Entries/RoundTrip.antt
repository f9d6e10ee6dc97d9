-- ===== src/Wire/Entries/RoundTrip.antt =====
-- The parsers read the formats that are documented above them.
use sochdb_go.Prelude.{
  ℕ, ◌+◌, ◌-◌, ◌^◌, ◌<◌, ◌≤◌, ◌≡◌, refl, sym, ap, ◌∙◌, List, [], ◌∷◌, ◌++◌, false, ltb, length,
  take, drop, length-append, take_left, drop_left, append_assoc, All, arith,
}
use sochdb_go.Prelude.Bytes.{Bytes}
use sochdb_go.Prelude.Bytes.Endian.{put_le, get_le, length-put_le, get_le-put_le}
use sochdb_go.Wire.Entries.{
  KeyValue, Truncated, key_len, key_and_value_len, value_bytes, Parsed, done, ◌>>=◌, slice, need,
  parse_entry, parse_entries, parse_response, format_entry, format_entries, format_response,
}

-- The lengths fit in their fields.
abbrev pub Fits : ℕ → KeyValue → Type 0
Fits width kv = (length kv.key < 256 ^ width) × (length kv.value < 2 ^ 32)

need-fits :
    (payload : Bytes) (size : ℕ) (e : Truncated)
    → size ≤ length payload
    → need payload size e ≡ done tt
unfolding need
need-fits payload size e h = ground arith

slice_lem :
    (payload : Bytes) (from to : ℕ)
    → from ≤ to
    → to ≤ length payload
    → slice payload from to ≡ done (take (to - from) (drop from payload))
unfolding slice
slice_lem payload from to h k = ground arith

slice-middle :
    (payload pre mid post : Bytes) (from to : ℕ)
    → payload ≡ pre ++ (mid ++ post)
    → from ≡ length pre
    → to ≡ from + length mid
    → slice payload from to ≡ done mid
slice-middle payload pre mid post from to split at size =
    let total : length payload ≡ length pre + (length mid + length post) =
      ap length split
      ∙ (length-append pre (mid ++ post) ∙ ap (λ n. length pre + n) (length-append mid post)) in
    slice_lem payload from to (omega arith) (omega arith)
    ∙ ap done (
        ap (λ l. take (to - from) (drop from l)) split
        ∙ ap (take (to - from)) (drop_left from pre (mid ++ post) (omega arith))
        ∙ take_left (to - from) mid post (omega arith))

parse_entry_lem :
    (width : ℕ) (payload : Bytes) (offset n m : ℕ) (key_len_bytes key value_len_bytes value : Bytes)
    → need payload (offset + width) key_len ≡ done tt
    → slice payload offset (offset + width) ≡ done key_len_bytes
    → get_le key_len_bytes ≡ n
    → need payload (offset + width + n + 4) key_and_value_len ≡ done tt
    → slice payload (offset + width) (offset + width + n) ≡ done key
    → slice payload (offset + width + n) (offset + width + n + 4) ≡ done value_len_bytes
    → get_le value_len_bytes ≡ m
    → need payload (offset + width + n + 4 + m) value_bytes ≡ done tt
    → slice payload (offset + width + n + 4) (offset + width + n + 4 + m) ≡ done value
    → parse_entry width payload offset
      ≡ done (record { key = key; value = value }, offset + width + n + 4 + m)
unfolding parse_entry
parse_entry_lem width payload offset n m key_len_bytes key value_len_bytes value h1 h2 h3 h4 h5 h6
      h7 h8 h9 =
    rw (h1, h2, h3, h4, h5, h6, h7, h8, h9) refl

length-format_entry :
    (width : ℕ) (kv : KeyValue)
    → length (format_entry width kv) ≡ width + length kv.key + 4 + length kv.value
unfolding format_entry
length-format_entry width kv = omega (
  arith,
  length-append {0} (put_le width (length kv.key))
      (kv.key ++ (put_le 4 (length kv.value) ++ kv.value)),
  length-append {0} kv.key (put_le 4 (length kv.value) ++ kv.value),
  length-append {0} (put_le 4 (length kv.value)) kv.value,
  length-put_le width (length kv.key),
  length-put_le 4 (length kv.value),
)

parse_entry-format :
    (width : ℕ) (payload pre rest : Bytes) (offset : ℕ) (kv : KeyValue)
    → Fits width kv
    → payload
      ≡ pre
        ++ (put_le width (length kv.key)
            ++ (kv.key ++ (put_le 4 (length kv.value) ++ (kv.value ++ rest))))
    → offset ≡ length pre
    → parse_entry width payload offset
      ≡ done (kv, offset + width + length kv.key + 4 + length kv.value)
parse_entry-format width payload pre rest offset kv (fits_key, fits_value) split at =
    let a : Bytes = put_le width (length kv.key) in
    let b : Bytes = put_le 4 (length kv.value) in
    let split2 : payload ≡ (pre ++ a) ++ (kv.key ++ (b ++ (kv.value ++ rest))) =
      split ∙ sym (append_assoc pre a _) in
    let split3 : payload ≡ ((pre ++ a) ++ kv.key) ++ (b ++ (kv.value ++ rest)) =
      split2 ∙ sym (append_assoc (pre ++ a) kv.key _) in
    let split4 : payload ≡ (((pre ++ a) ++ kv.key) ++ b) ++ (kv.value ++ rest) =
      split3 ∙ sym (append_assoc ((pre ++ a) ++ kv.key) b _) in
    let l1 : length a ≡ width = length-put_le width (length kv.key) in
    let l2 : length b ≡ 4 = length-put_le 4 (length kv.value) in
    let l3 : length (pre ++ a) ≡ offset + width = omega (arith, length-append {0} pre a) in
    let l4 : length ((pre ++ a) ++ kv.key) ≡ offset + width + length kv.key =
      omega (arith, length-append {0} (pre ++ a) kv.key) in
    let l5 : length (((pre ++ a) ++ kv.key) ++ b) ≡ offset + width + length kv.key + 4 =
      omega (arith, length-append {0} ((pre ++ a) ++ kv.key) b) in
    let total : offset + width + length kv.key + 4 + length kv.value ≤ length payload = omega (
      arith,
      ap length split4,
      length-append {0} (((pre ++ a) ++ kv.key) ++ b) (kv.value ++ rest),
      length-append {0} kv.value rest,
    ) in
    parse_entry_lem width payload offset (length kv.key) (length kv.value) a kv.key b kv.value
      (need-fits payload _ key_len (omega arith))
      (slice-middle payload pre a _ _ _ split at (omega arith))
      (get_le-put_le width (length kv.key) fits_key)
      (need-fits payload _ key_and_value_len (omega arith))
      (slice-middle payload (pre ++ a) kv.key _ _ _ split2 (omega arith) (omega arith))
      (slice-middle payload ((pre ++ a) ++ kv.key) b _ _ _ split3 (omega arith) (omega arith))
      (get_le-put_le 4 (length kv.value) (omega arith))
      (need-fits payload _ value_bytes (omega arith))
      (slice-middle payload (((pre ++ a) ++ kv.key) ++ b) kv.value _ _ _ split4 (omega arith)
        (omega arith))

format_entry-append :
    (width : ℕ) (kv : KeyValue) (rest : Bytes)
    → format_entry width kv ++ rest
      ≡ put_le width (length kv.key)
        ++ (kv.key ++ (put_le 4 (length kv.value) ++ (kv.value ++ rest)))
unfolding format_entry
format_entry-append width kv rest = simp append_assoc refl

bind-done :
    {A B : Type 0} (first : Parsed A) (next : A → Parsed B) {a : A} {b : B}
    → first ≡ done a
    → next a ≡ done b
    → (first >>= next) ≡ done b
bind-done first next e k = ap (λ r. r >>= next) e ∙ k

parse_entries-format :
    (width : ℕ) (payload pre rest : Bytes) (offset : ℕ) (kvs : List KeyValue)
    → All (Fits width) kvs
    → payload ≡ pre ++ (format_entries width kvs ++ rest)
    → offset ≡ length pre
    → parse_entries width (length kvs) payload offset ≡ done kvs
unfolding parse_entries format_entries
parse_entries-format width payload pre rest offset [] fits split at = refl
parse_entries-format width payload pre rest offset (kv ∷ kvs) (fits, all_fit) split at =
    let others : Bytes = format_entries width kvs ++ rest in
    let split' : payload ≡ pre ++ (format_entry width kv ++ others) =
      split
      ∙ ap (λ l. pre ++ l) (append_assoc (format_entry width kv) (format_entries width kvs) rest) in
    let offset' : ℕ = offset + width + length kv.key + 4 + length kv.value in
    let at' : offset' ≡ length (pre ++ format_entry width kv) =
      omega (arith, length-append {0} pre (format_entry width kv), length-format_entry width kv) in
    bind-done (parse_entry width payload offset) _
      (parse_entry-format width payload pre others offset kv fits
        (split' ∙ ap (λ l. pre ++ l) (format_entry-append width kv others)) at)
      (bind-done (parse_entries width (length kvs) payload offset') _
        (parse_entries-format width payload (pre ++ format_entry width kv) rest offset' kvs all_fit
          (split' ∙ sym (append_assoc pre (format_entry width kv) others)) at')
        refl)

-- A response in the documented format, with fewer than 2 ^ 32 entries whose keys and values fit in
-- their length fields, is parsed to its entries, in order, whatever follows them.
pub parse_response-format :
    (width : ℕ) (kvs : List KeyValue) (rest : Bytes)
    → length kvs < 2 ^ 32
    → All (Fits width) kvs
    → parse_response width (format_response width kvs ++ rest) ≡ done kvs
unfolding parse_response format_response
parse_response-format width kvs rest few fits =
    let count : Bytes = put_le 4 (length kvs) in
    let body : Bytes = format_entries width kvs ++ rest in
    let l1 : length count ≡ 4 = length-put_le 4 (length kvs) in
    let split : (count ++ format_entries width kvs) ++ rest ≡ count ++ body =
      append_assoc count (format_entries width kvs) rest in
    let long : ltb (length ((count ++ format_entries width kvs) ++ rest)) 4 ≡ false =
      ground (arith, ap length split, length-append {0} count body) in
    rw long (
      bind-done (slice ((count ++ format_entries width kvs) ++ rest) 0 4) _
        (slice-middle _ [] count body 0 4 split (omega arith) (omega arith))
        (rw (get_le-put_le 4 (length kvs) (omega arith))
          (parse_entries-format width _ count rest 4 kvs fits split (omega arith))))
