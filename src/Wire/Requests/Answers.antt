-- ===== src/Wire/Requests/Answers.antt =====
-- Requests whose response has arrived as one frame.
use sochdb_go.Prelude.{
  ℕ, ◌^◌, ◌<◌, ◌≡◌, ◌≢◌, ◌↔◌, ◌⊎◌, refl, sym, ap, ◌∙◌, List, [], ◌∷◌, ◌++◌, append-nil, false,
  Option, none, some, length, All, arith,
}
use sochdb_go.Prelude.Int.{ℤ}
use sochdb_go.Prelude.Result.{Result, ok, err}
use sochdb_go.Prelude.Bytes.{Bytes}
use sochdb_go.Wire.Entries.{KeyValue, done, parse_response, format_response}
use sochdb_go.Wire.Entries.RoundTrip.{Fits, parse_response-format}
use sochdb_go.Wire.Payload.{
  frame, op_get, op_scan, op_query, op_value, op_ok, op_error, query_payload,
}
use sochdb_go.Wire.Client.{
  unexpected_scan_opcode, unexpected_query_opcode, ClientError, remote, Conn, IpcClient, Io,
  written, and_then, ◌>>=◌, ◌>>◌, send_message, read_message, value_answer, entries_answer,
  give_parsed, read_value_response, read_scan_response, read_query_response, request, send_key_op,
}
use sochdb_go.Wire.Client.Frames.{Delivers, read_message-frame}
use sochdb_go.Wire.Requests.{get, scan, query}

parsed :
    (width : ℕ) (kvs : List KeyValue)
    → length kvs < 2 ^ 32
    → All (Fits width) kvs
    → parse_response width (format_response width kvs) ≡ done kvs
parsed width kvs few fits =
    ap (parse_response width) (sym (append-nil (format_response width kvs)))
    ∙ parse_response-format width kvs [] few fits

-- The result that readValueResponse gives for a message, without the connection.
abbrev value_result : {E : Type 0} → ℕ → Bytes → Result (ClientError E) (Option Bytes)
value_result {E} answer_op answer = (value_answer {C = Unit {0}} {E = E} (answer_op, answer) tt).0

value_answer-keeps :
    {C E : Type 0} (answer_op : ℕ) (answer : Bytes) (c : C)
    → value_answer {E = E} (answer_op, answer) c ≡ (value_result answer_op answer, c)
unfolding value_answer
value_answer-keeps answer_op answer c = ground arith

value_answer-some :
    {E : Type 0} (answer_op : ℕ) (answer value : Bytes)
    → (value_result {E = E} answer_op answer ≡ ok (some value))
      ↔ ((answer_op ≡ op_value) × (answer ≡ value) × (value ≢ []))
unfolding value_answer
value_answer-some answer_op [] value = ground arith
value_answer-some answer_op (b ∷ answer) value = ground arith

value_answer-none :
    {E : Type 0} (answer_op : ℕ) (answer : Bytes)
    → (value_result {E = E} answer_op answer ≡ ok none)
      ↔ ((answer_op ≡ op_ok) ⊎ ((answer_op ≡ op_value) × (answer ≡ [])))
unfolding value_answer
value_answer-none answer_op [] = ground arith
value_answer-none answer_op (b ∷ answer) = ground arith

value_answer-remote :
    {E : Type 0} (answer_op : ℕ) (answer message : Bytes)
    → (value_result {E = E} answer_op answer ≡ err (remote message))
      ↔ ((answer_op ≡ op_error) × (answer ≡ message))
unfolding value_answer
value_answer-remote answer_op answer message = ground arith

module _ {C E : Type 0} (net : Conn C E) (incoming : C → Bytes) (law : Delivers net incoming) where
  -- The request goes out, and then the response frame, with `rest` behind it, has arrived.
  abbrev pub Responds : C → ℕ → Bytes → ℕ → Bytes → Bytes → Type 0
  Responds c op payload answer_op answer rest =
      (c' : C) × (net.write (frame op payload) c ≡ (none, c'))
      × (incoming c' ≡ frame answer_op answer ++ rest)
      × (length answer < 2 ^ 32)

  -- Whatever `next` makes of the message, it makes it of this one, and only its frame is read.
  exchange :
      {A : Type 0} (next : ℕ × Bytes → Io C E A) (c : C) (op : ℕ) (payload : Bytes) (answer_op : ℕ)
      (answer rest : Bytes)
      → Responds c op payload answer_op answer rest
      → (c' : C) × ((send_message net op payload >> (read_message net >>= next)) c
          ≡ next (answer_op, answer) c')
        × (incoming c' ≡ rest)
  unfolding send_message
  exchange next c op payload answer_op answer rest (c1, sent, arrived, short) =
      let (c2, e, left) =
        read_message-frame net incoming law answer_op answer rest c1 short arrived in
      (
        c2,
        ap (λ r. and_then (written r) (λ _. read_message net >>= next)) sent
            ∙ ap (λ r. and_then r next) e,
        left,
      )

  -- An open client's request, as the same.
  request-exchange :
      {A : Type 0} (next : ℕ × Bytes → Io C E A) (client : IpcClient C) (op : ℕ) (payload : Bytes)
      (answer_op : ℕ) (answer rest : Bytes) {r : Result (ClientError E) A}
      → client.closed ≡ false
      → Responds client.conn op payload answer_op answer rest
      → ((c : C) → next (answer_op, answer) c ≡ (r, c))
      → (client' : IpcClient C) × (request
            (send_message net op payload >> (read_message net >>= next))
            client
          ≡ (r, client'))
        × (incoming client'.conn ≡ rest)
        × (client'.closed ≡ false)
  unfolding request
  request-exchange next client op payload answer_op answer rest opened responds keeps =
      let (c, e, left) = exchange next client.conn op payload answer_op answer rest responds in
      (record client { conn = c }, rw (opened, e ∙ keeps c) refl, left, opened)

  -- Where the response to the SCAN of an open client is one frame VALUE with entries in the format
  -- of scan responses (fewer than 2 ^ 32, with lengths that fit), Scan returns these entries, in
  -- order. What follows the frame is left to be read, and the client stays open.
  pub scan_reads :
      (client : IpcClient C) (prefix rest : Bytes) (kvs : List KeyValue)
      → client.closed ≡ false
      → length kvs < 2 ^ 32
      → All (Fits 2) kvs
      → Responds client.conn op_scan prefix op_value (format_response 2 kvs) rest
      → (client' : IpcClient C) × (scan net prefix client ≡ (ok kvs, client'))
        × (incoming client'.conn ≡ rest)
        × (client'.closed ≡ false)
  unfolding scan read_scan_response entries_answer give_parsed
  scan_reads client prefix rest kvs opened few fits responds =
      request-exchange (entries_answer 2 unexpected_scan_opcode) client op_scan prefix op_value
        (format_response 2 kvs) rest opened responds (λ c. rw (parsed 2 kvs few fits) refl)

  -- The same for Query, whose key lengths have four bytes: it sends the query's payload, and returns
  -- the entries of the response.
  pub query_reads :
      (client : IpcClient C) (prefix rest : Bytes) (limit offset : ℤ) (kvs : List KeyValue)
      → client.closed ≡ false
      → length kvs < 2 ^ 32
      → All (Fits 4) kvs
      → Responds client.conn op_query
          (query_payload prefix limit offset)
          op_value
          (format_response 4 kvs)
          rest
      → (client' : IpcClient C) × (query net prefix limit offset client ≡ (ok kvs, client'))
        × (incoming client'.conn ≡ rest)
        × (client'.closed ≡ false)
  unfolding query read_query_response entries_answer give_parsed
  query_reads client prefix rest limit offset kvs opened few fits responds =
      request-exchange (entries_answer 4 unexpected_query_opcode) client op_query
        (query_payload prefix limit offset) op_value (format_response 4 kvs) rest opened responds
        (λ c. rw (parsed 4 kvs few fits) refl)

  -- Where one frame responds to the GET of an open client: Get returns a value exactly if the frame
  -- is VALUE and not empty, and then its payload; it returns nil exactly if the frame is OK, or VALUE
  -- and empty; and it returns the server's error exactly if the frame is ERROR. In each case only the
  -- frame is read.
  pub get_answers :
      (client : IpcClient C) (key rest : Bytes) (answer_op : ℕ) (answer : Bytes)
      → client.closed ≡ false
      → Responds client.conn op_get key answer_op answer rest
      → (((value : Bytes)
            → ((get net key client).0 ≡ ok (some value))
              ↔ ((answer_op ≡ op_value) × (answer ≡ value) × (value ≢ [])))
          × (((get net key client).0 ≡ ok none)
              ↔ ((answer_op ≡ op_ok) ⊎ ((answer_op ≡ op_value) × (answer ≡ []))))
          × ((message : Bytes)
              → ((get net key client).0 ≡ err (remote message))
                ↔ ((answer_op ≡ op_error) × (answer ≡ message)))
          × (incoming (get net key client).1.conn ≡ rest))
  unfolding get send_key_op read_value_response
  get_answers client key rest answer_op answer opened responds =
      let (client', e, left, _) =
        request-exchange value_answer client op_get key answer_op answer rest opened responds
          (λ c. value_answer-keeps answer_op answer c) in
      let e0 = ap (λ (r : Result (ClientError E) (Option Bytes) × IpcClient C). r.0) e in
      (
        λ value. rw e0 (value_answer-some answer_op answer value),
        rw e0 (value_answer-none answer_op answer),
        λ message. rw e0 (value_answer-remote answer_op answer message),
        rw e left,
      )
