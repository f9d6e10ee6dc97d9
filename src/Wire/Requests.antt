-- ===== src/Wire/Requests.antt =====
-- The requests of IPCClient, over the helpers of Wire/Client.
pub mod Closing
pub mod Answers
use sochdb_go.Prelude.{
  ℕ, zero, suc, List, [], ◌∷◌, Bool, true, false, Option, none, some, ◌==◌, ◌||◌, if◌then◌else◌,
  length,
}
use sochdb_go.Prelude.Int.{ℤ}
use sochdb_go.Prelude.Result.{Result, ok, err}
use sochdb_go.Prelude.Bytes.{Bytes, codes}
use sochdb_go.Wire.Entries.{KeyValue}
use sochdb_go.Wire.Payload.{
  op_put, op_get, op_delete, op_begin_txn, op_commit_txn, op_abort_txn, op_query, op_put_path,
  op_get_path, op_scan, op_checkpoint, op_stats, op_ok, op_error, op_stats_resp, query_payload,
}
use sochdb_go.Wire.Client.{
  ProtocolMessage, unexpected_stats_opcode, stats_json, ClientError, remote, protocol, Conn,
  IpcClient, Io, ◌>>=◌, ◌>>◌, give, throw, send_message, read_message, read_scan_response,
  read_query_response, read_simple_response, txn_answer, request, send_key_op, send_key_value_op,
  send_txn_op,
}

pub record StorageStats : Type 0 where
  pub memtable_size_bytes : ℕ
  pub wal_size_bytes : ℕ
  pub active_transactions : ℤ

-- `_, err := ...; return err`
abbrev pub no_value : {E A S : Type 0} → Result E A × S → Result E (Unit {0}) × S
no_value (err e, s) = (err e, s)
no_value (ok value, s) = (ok tt, s)

-- encoding/json on the payload of a STATS response is a parameter.
unfoldable pub stats_answer :
    {C E : Type 0} → (Bytes → Option StorageStats) → ℕ × Bytes → Io C E StorageStats
stats_answer unmarshal (opcode, payload) =
    if opcode == op_error
    then throw (remote payload)
    else if (opcode == op_stats_resp) || (opcode == op_ok)
    then (if length payload == 0
        then give
            (record { memtable_size_bytes = 0; wal_size_bytes = 0; active_transactions = ℤ.pos 0 })
        else elim (unmarshal payload) [
          | none ↦ throw (protocol stats_json)
          | some stats ↦ give stats
        ])
    else throw (protocol (unexpected_stats_opcode opcode))

module _ {C E : Type 0} (net : Conn C E) where
  unfoldable pub get : Bytes → IpcClient C → Result (ClientError E) (Option Bytes) × IpcClient C
  get = send_key_op net op_get

  unfoldable pub put : Bytes → Bytes → IpcClient C → Result (ClientError E) (Unit {0}) × IpcClient C
  put key value client = no_value (send_key_value_op net op_put key value client)

  unfoldable pub delete : Bytes → IpcClient C → Result (ClientError E) (Unit {0}) × IpcClient C
  delete key client = no_value (send_key_op net op_delete key client)

  unfoldable pub get_path :
      Bytes → IpcClient C → Result (ClientError E) (Option Bytes) × IpcClient C
  get_path = send_key_op net op_get_path

  unfoldable pub put_path :
      Bytes → Bytes → IpcClient C → Result (ClientError E) (Unit {0}) × IpcClient C
  put_path path value client = no_value (send_key_value_op net op_put_path path value client)

  unfoldable pub scan : Bytes → IpcClient C → Result (ClientError E) (List KeyValue) × IpcClient C
  scan prefix = request (do send_message net op_scan prefix; read_scan_response net)

  unfoldable pub query :
      Bytes → ℤ → ℤ → IpcClient C → Result (ClientError E) (List KeyValue) × IpcClient C
  query prefix limit offset =
      request
        (do send_message net op_query (query_payload prefix limit offset); read_query_response net)

  unfoldable pub begin_transaction : IpcClient C → Result (ClientError E) ℕ × IpcClient C
  begin_transaction =
      request (do send_message net op_begin_txn []; message ← read_message net; txn_answer message)

  unfoldable pub commit_transaction :
      ℕ → IpcClient C → Result (ClientError E) (Unit {0}) × IpcClient C
  commit_transaction = send_txn_op net op_commit_txn

  unfoldable pub abort_transaction :
      ℕ → IpcClient C → Result (ClientError E) (Unit {0}) × IpcClient C
  abort_transaction = send_txn_op net op_abort_txn

  unfoldable pub checkpoint : IpcClient C → Result (ClientError E) (Unit {0}) × IpcClient C
  checkpoint = request (do send_message net op_checkpoint []; read_simple_response net)

  unfoldable pub stats :
      (Bytes → Option StorageStats)
      → IpcClient C
      → Result (ClientError E) StorageStats × IpcClient C
  stats unmarshal =
      request (do
        send_message net op_stats []
        message ← read_message net
        stats_answer unmarshal message)
