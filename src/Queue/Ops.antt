-- ===== src/Queue/Ops.antt =====
-- The methods of PriorityQueue. Each takes the database it is called on, and returns it with the
-- Go result. The clock and the task id (the clock and random letters) are arguments.
pub mod Stats
pub mod Scan
use sochdb_go.Prelude.{
  ℕ, ◌+◌, ◌%◌, ◌^◌, List, [], ◌∷◌, Bool, true, false, Option, none, some, leb, ◌||◌, if◌then◌else◌,
}
use sochdb_go.Prelude.Int.{ℤ}
use sochdb_go.Prelude.Result.{Result, ok, err}
use sochdb_go.Prelude.Bytes.{Bytes, codes}
use sochdb_go.Store.{Db, both}
use sochdb_go.Queue.Key.{QueueKey, encode}
use sochdb_go.Queue.Task.{
  Task, TaskState, pending, claimed, completed, dead_lettered, is_claimed, Json, PriorityQueue,
  QueueError, marshal_failed, unsupported_database, put_failed, scan_failed, task_not_found,
  task_not_claimed, queue_prefix,
}
use Stats.{get_stat, increment_stat, decrement_stat}
use Scan.{claimable, claimable_ipc, has_task_id, purgeable, first_match, keys_where, delete_all}

abbrev pub new_task : {Meta : Type 0} → Bytes → ℤ → ℤ → Bytes → Meta → Task Meta
new_task task_id now priority payload metadata = record {
  task_id = task_id;
  priority = priority;
  payload = payload;
  state = pending;
  enqueued_at = now;
  claimed_at = none;
  claimed_by = [];
  completed_at = none;
  retries = 0;
  metadata = metadata;
}

abbrev pub new_key : PriorityQueue → Bytes → ℤ → ℤ → QueueKey
new_key pq task_id now priority = record {
  queue_id = pq.config.name;
  priority = priority;
  ready_ts = now;
  sequence = pq.sequence_counter;
  task_id = task_id;
}

abbrev pub claim_task : {Meta : Type 0} → ℤ → Bytes → Task Meta → Task Meta
claim_task now worker_id task = record task {
  state = claimed;
  claimed_at = some now;
  claimed_by = worker_id;
}

abbrev pub complete_task : {Meta : Type 0} → ℤ → Task Meta → Task Meta
complete_task now task = record task { state = completed; completed_at = some now }

-- The task that Nack stores: one more retry, and dead-lettered or pending.
abbrev pub retry_task : {Meta : Type 0} → ℕ → Task Meta → Task Meta
retry_task max_retries task =
    if leb max_retries (task.retries + 1)
    then record task { state = dead_lettered; retries = task.retries + 1 }
    else record task {
      state = pending;
      claimed_at = none;
      claimed_by = [];
      retries = task.retries + 1;
    }

module _ {S Meta Blob : Type 0} (db : Db S Blob) (json : Json Meta Blob) where
  -- `value, _ := json.Marshal(task)`
  unfoldable pub marshal_or_nil : Task Meta → Blob
  marshal_or_nil task = elim (json.marshal_task task) [ none ↦ json.nil | some value ↦ value ]

  abbrev pub increment : PriorityQueue → Bytes → S → S
  increment = increment_stat db json

  abbrev pub decrement : PriorityQueue → Bytes → S → S
  decrement = decrement_stat db json

  -- The counter moves on whether or not the task is stored.
  unfoldable pub enqueue :
      Bytes → ℤ → ℤ → Bytes → Meta → PriorityQueue → S → Result QueueError Bytes × PriorityQueue × S
  enqueue task_id now priority payload metadata pq s =
      let key = encode (new_key pq task_id now priority) in
      let pq' = record pq { sequence_counter = (pq.sequence_counter + 1) % 2 ^ 64 } in
      elim (json.marshal_task (new_task task_id now priority payload metadata)) [
        | none ↦ (err marshal_failed, pq', s)
        | some value ↦ elim db.put [
          | none ↦ (err unsupported_database, pq', s)
          | some put ↦
              let (s', done) = put key value s in
              if done
              then (
                ok task_id,
                pq',
                increment pq (codes "pending") (increment pq (codes "totalEnqueued") s'),
              )
              else (err put_failed, pq', s')
        ]
      ]

  -- "Claim this task", and what follows it.
  unfoldable pub claim :
      (Bytes → Blob → S → S × Bool)
      → ℤ
      → Bytes
      → PriorityQueue
      → Bytes × Task Meta
      → S
      → Result QueueError (Option (Task Meta)) × S
  claim put now worker_id pq (key, task) s =
      let task' = claim_task now worker_id task in
      let (s', done) = put key (marshal_or_nil task') s in
      if done
      then (
        ok (some task'),
        increment pq (codes "totalDequeued")
            (increment pq (codes "claimed") (decrement pq (codes "pending") s')),
      )
      else (err put_failed, s')

  -- The fallback over an IPC scan.
  unfoldable pub dequeue_ipc :
      ℤ → Bytes → PriorityQueue → S → Result QueueError (Option (Task Meta)) × S
  dequeue_ipc now worker_id pq s = elim (both db.scan db.put) [
    | none ↦ (ok none, s)
    | some (scan, put) ↦ elim (scan (queue_prefix pq) s) [
      | none ↦ (err scan_failed, s)
      | some entries ↦ elim (first_match (claimable_ipc json) entries) [
        | none ↦ (ok none, s)
        | some entry ↦ claim put now worker_id pq entry s
      ]
    ]
  ]

  unfoldable pub dequeue :
      ℤ → Bytes → PriorityQueue → S → Result QueueError (Option (Task Meta)) × S
  dequeue now worker_id pq s = elim (both db.scan_prefix db.put) [
    | none ↦ dequeue_ipc now worker_id pq s
    | some (scan_prefix, put) ↦
        let (entries, fine) = scan_prefix (queue_prefix pq) s in
        elim (first_match (claimable json now) entries) [
          | none ↦ if fine then dequeue_ipc now worker_id pq s else (err scan_failed, s)
          | some entry ↦ claim put now worker_id pq entry s
        ]
  ]

  -- The entries that getTask and updateTask walk; an error of the iterator is not looked at.
  unfoldable pub scan_entries : PriorityQueue → S → Result QueueError (List (Bytes × Blob))
  scan_entries pq s = elim db.scan_prefix [
    | some scan_prefix ↦ ok (scan_prefix (queue_prefix pq) s).0
    | none ↦ elim db.scan [
      | none ↦ ok []
      | some scan ↦ elim (scan (queue_prefix pq) s) [ none ↦ err scan_failed | some kvs ↦ ok kvs ]
    ]
  ]

  unfoldable pub get_task : Bytes → PriorityQueue → S → Result QueueError (Option (Task Meta))
  get_task task_id pq s = elim (scan_entries pq s) [
    | err e ↦ err e
    | ok entries ↦ elim (first_match (has_task_id json task_id) entries) [
      | none ↦ ok none
      | some (key, task) ↦ ok (some task)
    ]
  ]

  -- Writes the task under the key where its id is found; where it is not, nothing happens.
  unfoldable pub update_task : Task Meta → PriorityQueue → S → Result QueueError (Unit {0}) × S
  update_task task pq s = elim db.put [
    | none ↦ (ok tt, s)
    | some put ↦ elim (scan_entries pq s) [
      | err e ↦ (err e, s)
      | ok entries ↦ elim (first_match (has_task_id json task.task_id) entries) [
        | none ↦ (ok tt, s)
        | some (key, existing) ↦
            let (s', done) = put key (marshal_or_nil task) s in
            (if done then (ok tt, s') else (err put_failed, s'))
      ]
    ]
  ]

  -- `updateTask` and, if it returns no error, one counter down and one up.
  unfoldable pub store_and_count :
      Task Meta → Bytes → Bytes → PriorityQueue → S → Result QueueError (Unit {0}) × S
  store_and_count task down up pq s =
      let (r, s') = update_task task pq s in
      elim r [ err e ↦ (err e, s') | ok _ ↦ (ok tt, increment pq up (decrement pq down s')) ]

  unfoldable pub ack : Bytes → ℤ → PriorityQueue → S → Result QueueError (Unit {0}) × S
  ack task_id now pq s = elim (get_task task_id pq s) [
    | err e ↦ (err e, s)
    | ok none ↦ (err (task_not_found task_id), s)
    | ok (some task) ↦
        if is_claimed task.state
        then store_and_count (complete_task now task) (codes "claimed") (codes "completed") pq s
        else (err (task_not_claimed task_id), s)
  ]

  unfoldable pub nack : Bytes → PriorityQueue → S → Result QueueError (Unit {0}) × S
  nack task_id pq s = elim (get_task task_id pq s) [
    | err e ↦ (err e, s)
    | ok none ↦ (err (task_not_found task_id), s)
    | ok (some task) ↦
        store_and_count (retry_task pq.config.max_retries task) (codes "claimed")
          (if leb pq.config.max_retries (task.retries + 1)
            then codes "deadLettered"
            else codes "pending")
          pq s
  ]

  unfoldable pub purge : PriorityQueue → S → Result QueueError ℕ × S
  purge pq s = elim (both db.scan_prefix db.delete) [
    | some (scan_prefix, delete) ↦
        let (s', purged) =
          delete_all delete (keys_where (purgeable json) (scan_prefix (queue_prefix pq) s).0) s in
        (ok purged, s')
    | none ↦ elim (both db.scan db.delete) [
      | none ↦ (ok 0, s)
      | some (scan, delete) ↦ elim (scan (queue_prefix pq) s) [
        | none ↦ (err scan_failed, s)
        | some kvs ↦
            let (s', purged) = delete_all delete (keys_where (purgeable json) kvs) s in
            (ok purged, s')
      ]
    ]
  ]
