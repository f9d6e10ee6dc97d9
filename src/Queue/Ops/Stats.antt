-- ===== src/Queue/Ops/Stats.antt =====
-- The counters that the queue keeps in the database: getStat to decrementStat, and Stats.
use sochdb_go.Prelude.{ℕ, ◌+◌, ◌-◌, Option, none, some, ltb, if◌then◌else◌}
use sochdb_go.Prelude.Bytes.{Bytes, codes}
use sochdb_go.Store.{Db}
use sochdb_go.Queue.Task.{Json, PriorityQueue, stat_key}

pub record QueueStats : Type 0 where
  pub pending : ℕ
  pub claimed : ℕ
  pub completed : ℕ
  pub dead_lettered : ℕ
  pub total_enqueued : ℕ
  pub total_dequeued : ℕ

module _ {S Meta Blob : Type 0} (db : Db S Blob) (json : Json Meta Blob) (pq : PriorityQueue) where
  count_of : Option (Option Blob) → ℕ
  count_of none = 0
  count_of (some none) = 0
  count_of (some (some value)) = json.unmarshal_count value

  unfoldable pub get_stat : Bytes → S → ℕ
  unfolding count_of
  get_stat name s = elim db.get [ none ↦ 0 | some get ↦ count_of (get (stat_key pq name) s) ]

  -- A failed Put is ignored.
  unfoldable pub put_stat : Bytes → ℕ → S → S
  put_stat name n s = elim db.put [
    | none ↦ s
    | some put ↦ (put (stat_key pq name) (json.marshal_count n) s).0
  ]

  unfoldable pub increment_stat : Bytes → S → S
  increment_stat name s = put_stat name (get_stat name s + 1) s

  unfoldable pub decrement_stat : Bytes → S → S
  decrement_stat name s =
      let current = get_stat name s in if ltb 0 current then put_stat name (current - 1) s else s

  unfoldable pub stats : S → QueueStats
  stats s = record {
    pending = get_stat (codes "pending") s;
    claimed = get_stat (codes "claimed") s;
    completed = get_stat (codes "completed") s;
    dead_lettered = get_stat (codes "deadLettered") s;
    total_enqueued = get_stat (codes "totalEnqueued") s;
    total_dequeued = get_stat (codes "totalDequeued") s;
  }
