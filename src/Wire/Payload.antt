-- ===== src/Wire/Payload.antt =====
-- The opcodes, the frame that sendMessage writes, and the payloads of the requests.
pub mod ReadBack
use sochdb_go.Prelude.{ℕ, zero, suc, ◌%◌, ◌^◌, [], ◌∷◌, ◌++◌, length}
use sochdb_go.Prelude.Int.{ℤ, to_u64}
use sochdb_go.Prelude.Bytes.{Bytes}
use sochdb_go.Prelude.Bytes.Endian.{put_le}

-- Client to server.
abbrev pub op_put : ℕ
op_put = 1

abbrev pub op_get : ℕ
op_get = 2

abbrev pub op_delete : ℕ
op_delete = 3

abbrev pub op_begin_txn : ℕ
op_begin_txn = 4

abbrev pub op_commit_txn : ℕ
op_commit_txn = 5

abbrev pub op_abort_txn : ℕ
op_abort_txn = 6

abbrev pub op_query : ℕ
op_query = 7

abbrev pub op_put_path : ℕ
op_put_path = 9

abbrev pub op_get_path : ℕ
op_get_path = 10

abbrev pub op_scan : ℕ
op_scan = 11

abbrev pub op_checkpoint : ℕ
op_checkpoint = 12

abbrev pub op_stats : ℕ
op_stats = 13

-- Server to client.
abbrev pub op_ok : ℕ
op_ok = 128

abbrev pub op_error : ℕ
op_error = 129

abbrev pub op_value : ℕ
op_value = 130

abbrev pub op_txn_id : ℕ
op_txn_id = 131

abbrev pub op_stats_resp : ℕ
op_stats_resp = 134

-- opcode, length(4 LE), payload
unfoldable pub frame : ℕ → Bytes → Bytes
frame op payload = op ∷ (put_le 4 (length payload % 2 ^ 32) ++ payload)

-- PUT: key_len(4 LE), key, value
unfoldable pub put_payload : Bytes → Bytes → Bytes
put_payload key value = put_le 4 (length key % 2 ^ 32) ++ (key ++ value)

-- GET_PATH: count(2 LE), one segment with its length(2 LE)
unfoldable pub get_path_payload : Bytes → Bytes
get_path_payload path = put_le 2 1 ++ (put_le 2 (length path % 2 ^ 16) ++ path)

-- PUT_PATH: the same, and the value
unfoldable pub put_path_payload : Bytes → Bytes → Bytes
put_path_payload path value = put_le 2 1 ++ (put_le 2 (length path % 2 ^ 16) ++ (path ++ value))

-- QUERY: path_len(2 LE), path, limit(4 LE), offset(4 LE), no columns(2 LE)
unfoldable pub query_payload : Bytes → ℤ → ℤ → Bytes
query_payload path limit offset =
    put_le 2 (length path % 2 ^ 16)
    ++ (path
        ++ (put_le 4 (to_u64 limit % 2 ^ 32) ++ (put_le 4 (to_u64 offset % 2 ^ 32) ++ put_le 2 0)))

-- COMMIT and ABORT: the transaction's id(8 LE)
unfoldable pub txn_payload : ℕ → Bytes
txn_payload txn_id = put_le 8 txn_id
