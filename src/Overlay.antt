-- ===== src/Overlay.antt =====
-- What client.go builds on the key-value requests of its client: graph records, the semantic cache
-- and traces. They use Get, Put and Scan only, which are an interface here.
pub mod Laws
pub mod Graph
pub mod Traverse
pub mod Traces
pub mod Cache
mod Tests
use sochdb_go.Prelude.{List, Option}
use sochdb_go.Prelude.Result.{Result}
use sochdb_go.Prelude.Bytes.{Bytes}
use sochdb_go.Wire.Entries.{KeyValue}
use sochdb_go.Wire.Client.{ClientError, Conn, IpcClient}
use sochdb_go.Wire.Requests.{get, put, scan}

pub record Kv (S E : Type 0) : Type 0 where
  pub kv_get : Bytes → S → Result E (Option Bytes) × S
  pub kv_put : Bytes → Bytes → S → Result E (Unit {0}) × S
  pub kv_scan : Bytes → S → Result E (List KeyValue) × S

-- The client's own requests.
abbrev pub ipc_kv : {C E : Type 0} → Conn C E → Kv (IpcClient C) (ClientError E)
ipc_kv net = record { kv_get = get net; kv_put = put net; kv_scan = scan net }
