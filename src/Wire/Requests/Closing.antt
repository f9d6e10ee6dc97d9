-- ===== src/Wire/Requests/Closing.antt =====
-- Requests on a client that was closed.
use sochdb_go.Prelude.{ℕ, ◌≡◌, refl, arith, true, Option, none}
use sochdb_go.Prelude.Int.{ℤ}
use sochdb_go.Prelude.Result.{err}
use sochdb_go.Prelude.Bytes.{Bytes}
use sochdb_go.Wire.Client.{
  closed_connection, Conn, IpcClient, request, close, send_key_op, send_key_value_op, send_txn_op,
}
use sochdb_go.Wire.Requests.{
  StorageStats, get, put, delete, get_path, put_path, scan, query, begin_transaction,
  commit_transaction, abort_transaction, checkpoint, stats,
}

module _ {C E : Type 0} (net : Conn C E) where
  -- Every request returns ErrClosed and leaves the client, its connection included, as it is.
  pub record Refuses (client : IpcClient C) : Type 0 where
    pub get-refused : (key : Bytes) → get net key client ≡ (err closed_connection, client)
    pub put-refused :
        (key value : Bytes) → put net key value client ≡ (err closed_connection, client)
    pub delete-refused : (key : Bytes) → delete net key client ≡ (err closed_connection, client)
    pub get_path-refused :
        (path : Bytes) → get_path net path client ≡ (err closed_connection, client)
    pub put_path-refused :
        (path value : Bytes) → put_path net path value client ≡ (err closed_connection, client)
    pub scan-refused : (prefix : Bytes) → scan net prefix client ≡ (err closed_connection, client)
    pub query-refused :
        (prefix : Bytes) (limit offset : ℤ)
        → query net prefix limit offset client ≡ (err closed_connection, client)
    pub begin-refused : begin_transaction net client ≡ (err closed_connection, client)
    pub commit-refused :
        (id : ℕ) → commit_transaction net id client ≡ (err closed_connection, client)
    pub abort-refused : (id : ℕ) → abort_transaction net id client ≡ (err closed_connection, client)
    pub checkpoint-refused : checkpoint net client ≡ (err closed_connection, client)
    pub stats-refused :
        (unmarshal : Bytes → Option StorageStats)
        → stats net unmarshal client ≡ (err closed_connection, client)
    pub close-again : close net client ≡ (none, client)

  Refuses-closed : (client : IpcClient C) → client.closed ≡ true → Refuses client
  unfolding get put delete get_path put_path scan query begin_transaction commit_transaction
      abort_transaction checkpoint stats close send_key_op send_key_value_op send_txn_op request
  Refuses-closed client h = record {
    get-refused = λ key. rw h refl;
    put-refused = λ key value. rw h refl;
    delete-refused = λ key. rw h refl;
    get_path-refused = λ path. rw h refl;
    put_path-refused = λ path value. rw h refl;
    scan-refused = λ prefix. rw h refl;
    query-refused = λ prefix limit offset. rw h refl;
    begin-refused = rw h refl;
    commit-refused = λ id. rw h refl;
    abort-refused = λ id. rw h refl;
    checkpoint-refused = rw h refl;
    stats-refused = λ unmarshal. rw h refl;
    close-again = rw h refl;
  }

  close-closed : (client : IpcClient C) → (close net client).1.closed ≡ true
  unfolding close
  close-closed client = ground arith

  -- After Close, whether or not the connection's Close fails, every request returns ErrClosed and
  -- changes nothing, and a second Close returns no error and changes nothing.
  pub close-Refuses : (client : IpcClient C) → Refuses (close net client).1
  close-Refuses client = Refuses-closed (close net client).1 (close-closed client)
