-- ===== src/Wire/Tests.antt =====
-- The theorems on the client, at concrete messages and a connection in memory.
use sochdb_go.Prelude.{
  ◌≡◌, refl, ◌≢◌, ◌↔◌, ◌⊎◌, ◌%◌, ◌^◌, List, [], ◌∷◌, ◌++◌, append-nil, sym, false, none, some, take,
  drop, arith,
}
use sochdb_go.Prelude.Int.{ℤ}
use sochdb_go.Prelude.Result.{ok, err}
use sochdb_go.Prelude.Bytes.{Bytes, codes}
use sochdb_go.Prelude.Bytes.Endian.{put_le}
use sochdb_go.Wire.Entries.{
  KeyValue, done, panic, parse_response, format_response, format_entries, format_entry,
}
use sochdb_go.Wire.Entries.Safety.{parse_response-ne-panic}
use sochdb_go.Wire.Entries.RoundTrip.{parse_response-format}
use sochdb_go.Wire.Payload.{frame, put_path_payload, op_value, op_ok, op_error}
use sochdb_go.Wire.Payload.ReadBack.{path_of, value_of, put_path_payload-read}
use sochdb_go.Wire.Client.{remote, IpcClient, close, read_message}
use sochdb_go.Wire.Client.Frames.{Gives, read_message-frame}
use sochdb_go.Wire.Requests.{get, scan, query}
use sochdb_go.Wire.Requests.Closing.{Refuses, close-Refuses}
use sochdb_go.Wire.Requests.Answers.{scan_reads, query_reads, get_answers}
use sochdb_go.Wire.Pipe.{Pipe, pipe, respond, pipe-Delivers}

abbrev two_entries : List KeyValue
two_entries =
    record { key = codes "a"; value = codes "one" } ∷ (record { key = codes "b"; value = [] } ∷ [])

abbrev waiting : Bytes → IpcClient Pipe
waiting response = record {
  conn = record { arrived = []; responses = response ∷ [] };
  closed = false;
}

-- The count says one entry, and nothing follows.
parse_response-ne-panic_example : parse_response 2 (1 ∷ (0 ∷ (0 ∷ (0 ∷ [])))) ≢ panic
parse_response-ne-panic_example = parse_response-ne-panic 2 (1 ∷ (0 ∷ (0 ∷ (0 ∷ []))))

parse_response-format_example :
    parse_response 4 (format_response 4 two_entries ++ codes "more") ≡ done two_entries
parse_response-format_example =
    parse_response-format 4 two_entries (codes "more") (omega arith) (omega arith)

put_path_payload-read_example :
    (path_of (put_path_payload (codes "a/b") (codes "v")) ≡ take (3 % 2 ^ 16) (codes "a/b"))
    × (value_of (put_path_payload (codes "a/b") (codes "v"))
        ≡ drop (3 % 2 ^ 16) (codes "a/b") ++ codes "v")
put_path_payload-read_example = put_path_payload-read (codes "a/b") (codes "v")

read_message-frame_example :
    Gives
      (λ (p : Pipe). p.arrived)
      (read_message pipe)
      (record { arrived = frame op_value (codes "one") ++ codes "more"; responses = [] })
      (op_value, codes "one")
      (codes "more")
read_message-frame_example =
    read_message-frame pipe (λ p. p.arrived) pipe-Delivers op_value (codes "one") (codes "more")
      (record { arrived = frame op_value (codes "one") ++ codes "more"; responses = [] })
      (omega arith) refl

close-Refuses_test : Refuses pipe (close pipe (waiting [])).1
close-Refuses_test = close-Refuses pipe (waiting [])

scan_reads_example :
    (client' : IpcClient Pipe) × (scan pipe
        (codes "a")
        (waiting (frame op_value (format_response 2 two_entries)))
      ≡ (ok two_entries, client'))
    × (client'.conn.arrived ≡ [])
    × (client'.closed ≡ false)
unfolding respond frame format_response format_entries format_entry put_le
scan_reads_example =
    scan_reads pipe (λ p. p.arrived) pipe-Delivers
      (waiting (frame op_value (format_response 2 two_entries))) (codes "a") [] two_entries refl
      (omega arith) (omega arith)
      (
        record { arrived = frame op_value (format_response 2 two_entries); responses = [] },
        refl,
        sym (append-nil (frame op_value (format_response 2 two_entries))),
        omega arith,
      )

query_reads_test :
    (client' : IpcClient Pipe) × (query pipe
        (codes "a")
        (ℤ.pos 10)
        (ℤ.pos 0)
        (waiting (frame op_value (format_response 4 two_entries)))
      ≡ (ok two_entries, client'))
    × (client'.conn.arrived ≡ [])
    × (client'.closed ≡ false)
unfolding respond frame format_response format_entries format_entry put_le
query_reads_test =
    query_reads pipe (λ p. p.arrived) pipe-Delivers
      (waiting (frame op_value (format_response 4 two_entries))) (codes "a") [] (ℤ.pos 10) (ℤ.pos 0)
      two_entries refl (omega arith) (omega arith)
      (
        record { arrived = frame op_value (format_response 4 two_entries); responses = [] },
        refl,
        sym (append-nil (frame op_value (format_response 4 two_entries))),
        omega arith,
      )

get_answers_example :
    ((value : Bytes)
      → ((get pipe (codes "k") (waiting (frame op_value (codes "one")))).0 ≡ ok (some value))
        ↔ ((op_value ≡ op_value) × (codes "one" ≡ value) × (value ≢ [])))
    × (((get pipe (codes "k") (waiting (frame op_value (codes "one")))).0 ≡ ok none)
        ↔ ((op_value ≡ op_ok) ⊎ ((op_value ≡ op_value) × (codes "one" ≡ []))))
    × ((message : Bytes)
        → ((get pipe (codes "k") (waiting (frame op_value (codes "one")))).0 ≡ err (remote message))
          ↔ ((op_value ≡ op_error) × (codes "one" ≡ message)))
    × ((get pipe (codes "k") (waiting (frame op_value (codes "one")))).1.conn.arrived ≡ [])
unfolding respond frame put_le
get_answers_example =
    get_answers pipe (λ p. p.arrived) pipe-Delivers (waiting (frame op_value (codes "one")))
      (codes "k") [] op_value (codes "one") refl
      (
        record { arrived = frame op_value (codes "one"); responses = [] },
        refl,
        sym (append-nil (frame op_value (codes "one"))),
        omega arith,
      )
