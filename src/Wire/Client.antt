-- ===== src/Wire/Client.antt =====
-- The methods of IPCClient. The connection (net.Conn with io.ReadFull) is a parameter; a method takes
-- the client and returns it with the Go result. The mutex makes each method run alone.
pub mod Frames
use sochdb_go.Prelude.{
  ℕ, ◌+◌, List, [], ◌∷◌, Bool, true, false, Option, none, some, ltb, ◌==◌, ◌||◌, if◌then◌else◌,
  length, take,
}
use sochdb_go.Prelude.Int.{ℤ}
use sochdb_go.Prelude.Result.{Result, ok, err}
use sochdb_go.Prelude.Bytes.{Bytes, codes}
use sochdb_go.Prelude.Bytes.Endian.{get_le}
use sochdb_go.Wire.Entries.{KeyValue, Truncated, Parsed, done, failed, panic, parse_response}
use sochdb_go.Wire.Payload.{
  op_put, op_get, op_delete, op_begin_txn, op_commit_txn, op_abort_txn, op_query, op_put_path,
  op_get_path, op_scan, op_checkpoint, op_stats, op_ok, op_error, op_value, op_txn_id,
  op_stats_resp, frame, put_payload, get_path_payload, put_path_payload, query_payload, txn_payload,
}

-- The messages of the ProtocolErrors, and what they quote.
pub data ProtocolMessage : Type 0 where
  unexpected_opcode expected_ok expected_txn_id : ℕ → ProtocolMessage
  unexpected_query_opcode unexpected_scan_opcode unexpected_stats_opcode : ℕ → ProtocolMessage
  invalid_transaction_response stats_json : ProtocolMessage
  truncated : Truncated → ProtocolMessage

-- `remote` is the SochDBError with Op "remote"; `panicked` is no error, but Go's run-time panic.
pub data ClientError (E : Type 0) : Type 0 where
  closed_connection : ClientError E
  io : E → ClientError E
  remote : Bytes → ClientError E
  protocol : ProtocolMessage → ClientError E
  panicked : ClientError E

-- Write, io.ReadFull of so many bytes, and Close. `E` are the errors they return.
pub record Conn (C E : Type 0) : Type 0 where
  pub write : Bytes → C → Option E × C
  pub read_full : ℕ → C → Result E Bytes × C
  pub close : C → Option E × C

pub record IpcClient (C : Type 0) : Type 0 where
  pub conn : C
  pub closed : Bool

abbrev pub Io : Type 0 → Type 0 → Type 0 → Type 0
Io C E A = C → Result (ClientError E) A × C

abbrev pub and_then :
    {C E A B : Type 0}
    → Result (ClientError E) A × C
    → (A → Io C E B)
    → Result (ClientError E) B × C
and_then (err e, c) next = (err e, c)
and_then (ok a, c) next = next a c

infixl 5 ◌>>=◌ ◌>>◌
abbrev pub ◌>>=◌ : {C E A B : Type 0} → Io C E A → (A → Io C E B) → Io C E B
(first >>= next) c = and_then (first c) next

abbrev pub ◌>>◌ : {C E B : Type 0} → Io C E (Unit {0}) → Io C E B → Io C E B
first >> next = first >>= λ _. next

abbrev pub give : {C E A : Type 0} → A → Io C E A
give a c = (ok a, c)

abbrev pub throw : {C E A : Type 0} → ClientError E → Io C E A
throw e c = (err e, c)

-- `opcodeBuf[0]` of a buffer of one byte.
unfoldable pub first_byte : Bytes → ℕ
first_byte [] = 0
first_byte (b ∷ bs) = b

-- What is said of a message by its opcode. `none` is Go's nil.
unfoldable pub value_answer : {C E : Type 0} → ℕ × Bytes → Io C E (Option Bytes)
value_answer (opcode, payload) =
    if opcode == op_ok
    then give none
    else if opcode == op_value
    then give (if length payload == 0 then none else some payload)
    else if opcode == op_error
    then throw (remote payload)
    else throw (protocol (unexpected_opcode opcode))

unfoldable pub simple_answer : {C E : Type 0} → ℕ × Bytes → Io C E (Unit {0})
simple_answer (opcode, payload) =
    if opcode == op_error
    then throw (remote payload)
    else if (opcode == op_ok) || (opcode == op_txn_id)
    then give tt
    else throw (protocol (expected_ok opcode))

unfoldable pub txn_answer : {C E : Type 0} → ℕ × Bytes → Io C E ℕ
txn_answer (opcode, payload) =
    if opcode == op_txn_id
    then (if ltb (length payload) 8
        then throw (protocol invalid_transaction_response)
        else give (get_le (take 8 payload)))
    else if opcode == op_error
    then throw (remote payload)
    else throw (protocol (expected_txn_id opcode))

unfoldable pub give_parsed : {C E : Type 0} → Parsed (List KeyValue) → Io C E (List KeyValue)
give_parsed (done kvs) = give kvs
give_parsed (failed e) = throw (protocol (truncated e))
give_parsed panic = throw panicked

-- The scan and the query response, with their widths and their messages.
unfoldable pub entries_answer :
    {C E : Type 0} → ℕ → (ℕ → ProtocolMessage) → ℕ × Bytes → Io C E (List KeyValue)
entries_answer width unexpected (opcode, payload) =
    if opcode == op_error
    then throw (remote payload)
    else if (opcode == op_value) || (opcode == op_ok)
    then give_parsed (parse_response width payload)
    else throw (protocol (unexpected opcode))

-- `if c.closed { return ErrClosed }` in front of each request.
unfoldable pub request :
    {C E A : Type 0} → Io C E A → IpcClient C → Result (ClientError E) A × IpcClient C
request body client =
    if client.closed
    then (err closed_connection, client)
    else let (r, conn) = body client.conn in (r, record client { conn = conn })

-- The errors of the connection, as they are returned.
abbrev pub written : {C E : Type 0} → Option E × C → Result (ClientError E) (Unit {0}) × C
written (none, c) = (ok tt, c)
written (some e, c) = (err (io e), c)

abbrev pub received : {C E A : Type 0} → Result E A × C → Result (ClientError E) A × C
received (err e, c) = (err (io e), c)
received (ok a, c) = (ok a, c)

module _ {C E : Type 0} (net : Conn C E) where
  unfoldable pub send_message : ℕ → Bytes → Io C E (Unit {0})
  send_message op payload c = written (net.write (frame op payload) c)

  unfoldable pub read_full : ℕ → Io C E Bytes
  read_full size c = received (net.read_full size c)

  -- An empty payload is not read.
  unfoldable pub read_payload : ℕ → Io C E Bytes
  read_payload size = if ltb 0 size then read_full size else give []

  unfoldable pub read_message : Io C E (ℕ × Bytes)
  read_message = do
    opcode_buf ← read_full 1
    len_buf ← read_full 4
    payload ← read_payload (get_le len_buf)
    give (first_byte opcode_buf, payload)

  unfoldable pub read_value_response : Io C E (Option Bytes)
  read_value_response = read_message >>= value_answer

  unfoldable pub read_simple_response : Io C E (Unit {0})
  read_simple_response = read_message >>= simple_answer

  unfoldable pub read_scan_response : Io C E (List KeyValue)
  read_scan_response = read_message >>= entries_answer 2 unexpected_scan_opcode

  unfoldable pub read_query_response : Io C E (List KeyValue)
  read_query_response = read_message >>= entries_answer 4 unexpected_query_opcode

  unfoldable pub close : IpcClient C → Option E × IpcClient C
  close client =
      if client.closed
      then (none, client)
      else let (e, conn) = net.close client.conn in (e, record { conn = conn; closed = true })

  unfoldable pub send_key_op :
      ℕ → Bytes → IpcClient C → Result (ClientError E) (Option Bytes) × IpcClient C
  send_key_op op key = request (do
    send_message op (if op == op_get_path then get_path_payload key else key)
    read_value_response)

  unfoldable pub send_key_value_op :
      ℕ → Bytes → Bytes → IpcClient C → Result (ClientError E) (Option Bytes) × IpcClient C
  send_key_value_op op key value = request (do
    send_message op
        (if op == op_put_path then put_path_payload key value else put_payload key value)
    read_value_response)

  unfoldable pub send_txn_op : ℕ → ℕ → IpcClient C → Result (ClientError E) (Unit {0}) × IpcClient C
  send_txn_op op txn_id = request (do send_message op (txn_payload txn_id); read_simple_response)
