-- ===== src/Queue/Backend.antt =====
-- What the queue's proofs ask of its database: the methods of the scan-based path, their laws, and
-- those of encoding/json.
use sochdb_go.Prelude.{
  ℕ, ◌≡◌, List, Bool, true, false, Option, none, some, Bool-cases, inl, inr, ltb, ◌∙◌,
}
use sochdb_go.Prelude.Bytes.{Bytes}
use sochdb_go.Prelude.Bytes.Order.{bytes_eq}
use sochdb_go.Prelude.Bytes.Prefix.{has_prefix, has_prefix→append}
use sochdb_go.Store.{Db, both}
use sochdb_go.Store.Laws.{LawfulPut, LawfulScan}
use sochdb_go.Queue.Task.{Task, IsKnown, Json, LawfulJson, PriorityQueue, queue_prefix, stat_key}
use sochdb_go.Queue.Ops.Stats.{put_stat, get_stat, increment_stat, decrement_stat}
use sochdb_go.Queue.Ops.{marshal_or_nil}

pub record Backend {S Meta Blob : Type 0} (db : Db S Blob) (json : Json Meta Blob) : Type 0 where
  pub view : S → Bytes → Option Blob
  pub put : Bytes → Blob → S → S × Bool
  pub scan : Bytes → S → List (Bytes × Blob) × Bool
  pub put_is : db.put ≡ some put
  pub scan_is : db.scan_prefix ≡ some scan
  -- no database has both ways to scan
  pub no_ipc : db.scan ≡ none
  pub put_lawful : LawfulPut view put
  pub scan_lawful : LawfulScan view scan
  pub json_lawful : LawfulJson json

abbrev pub IsQueueKey : PriorityQueue → Bytes → Type 0
IsQueueKey pq k = has_prefix (queue_prefix pq) k ≡ true

-- A counter is not stored among the queue's entries.
pub stat_key-ne :
    (pq : PriorityQueue) (name k : Bytes) → IsQueueKey pq k → bytes_eq (stat_key pq name) k ≡ false
unfolding queue_prefix stat_key bytes_eq
stat_key-ne pq name k h = let (rest, e) = has_prefix→append (queue_prefix pq) k h in rw e

module _ {S Meta Blob : Type 0} {db : Db S Blob} {json : Json Meta Blob} (b : Backend db json) where
  pub view-put_other :
      (k : Bytes) (v : Blob) (s : S) (j : Bytes)
      → bytes_eq k j ≡ false
      → b.view (b.put k v s).0 j ≡ b.view s j
  view-put_other k v s j h = elim (Bool-cases (b.put k v s).1) [
    | inl done ↦ b.put_lawful.put_done k v s j done ∙ rw h
    | inr failed ↦ b.put_lawful.put_failed k v s j failed
  ]

  module _ (pq : PriorityQueue) (j : Bytes) (queue_key : IsQueueKey pq j) where
    -- The counters leave the queue's entries alone.
    pub view-put_stat :
        (name : Bytes) (n : ℕ) (s : S) → b.view (put_stat db json pq name n s) j ≡ b.view s j
    unfolding put_stat
    view-put_stat name n s =
        rw b.put_is (view-put_other (stat_key pq name) _ s j (stat_key-ne pq name j queue_key))

    pub view-increment_stat :
        (name : Bytes) (s : S) → b.view (increment_stat db json pq name s) j ≡ b.view s j
    unfolding increment_stat
    view-increment_stat name s = view-put_stat name _ s

    pub view-decrement_stat :
        (name : Bytes) (s : S) → b.view (decrement_stat db json pq name s) j ≡ b.view s j
    unfolding decrement_stat
    view-decrement_stat name s = elim (Bool-cases (ltb 0 (get_stat db json pq name s))) [
      | inl more ↦ rw more (view-put_stat name _ s)
      | inr zero_left ↦ rw zero_left
    ]

  -- A task that carries the id and the metadata of a stored one is stored as it is.
  pub marshal_or_nil_reads_back :
      (read t : Task Meta) (v : Blob)
      → json.unmarshal_task v ≡ some read
      → t.task_id ≡ read.task_id
      → t.metadata ≡ read.metadata
      → b.json_lawful.is_text t.claimed_by ≡ true
      → IsKnown t.state
      → json.unmarshal_task (marshal_or_nil db json t) ≡ some t
  unfolding marshal_or_nil
  marshal_or_nil_reads_back read t v e i m text known =
      let (v', marshalled, back) = b.json_lawful.write_again read t v e i m text known in
      rw (marshalled, marshal_or_nil) back

  pub both_scan_prefix : both db.scan_prefix db.put ≡ some (b.scan, b.put)
  both_scan_prefix = rw (b.scan_is, b.put_is)

  pub both_scan : both db.scan db.put ≡ none
  both_scan = rw b.no_ipc
