-- ===== src/Queue/Task.antt =====
-- The task, the queue's configuration and handle, and what the queue needs of encoding/json.
use sochdb_go.Prelude.{ℕ, ◌≡◌, [], ◌++◌, Bool, true, false, Option, none, some, ltb, if◌then◌else◌}
use sochdb_go.Prelude.Int.{ℤ}
use sochdb_go.Prelude.Bytes.{Bytes, codes}

-- `TaskState` is a string: a value read from the database may be any other text.
pub data TaskState : Type 0 where
  pending claimed completed dead_lettered : TaskState
  other : Bytes → TaskState

abbrev pub is_pending : TaskState → Bool
is_pending pending = true
is_pending _ = false

abbrev pub is_claimed : TaskState → Bool
is_claimed claimed = true
is_claimed _ = false

-- completed or dead-lettered
abbrev pub is_finished : TaskState → Bool
is_finished completed = true
is_finished dead_lettered = true
is_finished _ = false

-- `Meta` is the type of Go's `map[string]interface{}`.
pub record Task (Meta : Type 0) : Type 0 where
  pub task_id : Bytes
  pub priority : ℤ
  pub payload : Bytes
  pub state : TaskState
  pub enqueued_at : ℤ
  pub claimed_at : Option ℤ
  pub claimed_by : Bytes
  pub completed_at : Option ℤ
  pub retries : ℕ
  pub metadata : Meta

-- encoding/json, as the queue calls it. `nil` is the slice that Marshal returns with an error.
pub record Json (Meta Blob : Type 0) : Type 0 where
  pub nil : Blob
  pub marshal_task : Task Meta → Option Blob
  pub unmarshal_task : Blob → Option (Task Meta)
  pub marshal_count : ℕ → Blob
  -- the count that `json.Unmarshal(value, &count)` leaves, 0 on an error
  pub unmarshal_count : Blob → ℕ

-- One of the four states of the queue.
abbrev pub IsKnown : TaskState → Type 0
IsKnown pending = Unit {0}
IsKnown claimed = Unit {0}
IsKnown completed = Unit {0}
IsKnown dead_lettered = Unit {0}
IsKnown (other text) = ⊥

-- `is_text` are the strings that encoding/json gives back as they are, those of valid UTF-8. Where its
-- strings are such, a task that was marshalled is read back (the metadata may come back in JSON's own
-- types), and a task with the id and the metadata of one that was read can be marshalled and comes
-- back unchanged.
pub record LawfulJson {Meta Blob : Type 0} (json : Json Meta Blob) : Type 0 where
  pub is_text : Bytes → Bool
  pub is_text_empty : is_text [] ≡ true
  pub is_text_read :
      (b : Blob) (t : Task Meta) → json.unmarshal_task b ≡ some t → is_text t.claimed_by ≡ true
  pub read_back :
      (t : Task Meta) (b : Blob)
      → is_text t.task_id ≡ true
      → is_text t.claimed_by ≡ true
      → IsKnown t.state
      → json.marshal_task t ≡ some b
      → (m : Meta) × (json.unmarshal_task b ≡ some (record t { metadata = m }))
  pub write_again :
      (read t : Task Meta) (b : Blob)
      → json.unmarshal_task b ≡ some read
      → t.task_id ≡ read.task_id
      → t.metadata ≡ read.metadata
      → is_text t.claimed_by ≡ true
      → IsKnown t.state
      → (b' : Blob) × (json.marshal_task t ≡ some b') × (json.unmarshal_task b' ≡ some t)
  pub count_read_back : (n : ℕ) → json.unmarshal_count (json.marshal_count n) ≡ n

-- `int` fields that the code only compares with 0 and with counters that start at 0: a negative
-- setting is taken like 0.
pub record QueueConfig : Type 0 where
  pub name : Bytes
  pub visibility_timeout : ℕ
  pub max_retries : ℕ
  pub dead_letter_queue : Bytes

pub record PriorityQueue : Type 0 where
  pub config : QueueConfig
  pub sequence_counter : ℕ

-- the defaults, and the positive settings of `config` over them
unfoldable pub new_priority_queue : Bytes → Option QueueConfig → PriorityQueue
new_priority_queue name none = record {
  config = record {
    name = name;
    visibility_timeout = 30000;
    max_retries = 3;
    dead_letter_queue = [];
  };
  sequence_counter = 0;
}
new_priority_queue name (some config) = record {
  config = record {
    name = name;
    visibility_timeout =
        if ltb 0 config.visibility_timeout then config.visibility_timeout else 30000;
    max_retries = if ltb 0 config.max_retries then config.max_retries else 3;
    dead_letter_queue = config.dead_letter_queue;
  };
  sequence_counter = 0;
}

unfoldable pub create_queue : Bytes → Option QueueConfig → PriorityQueue
create_queue = new_priority_queue

pub data QueueError : Type 0 where
  marshal_failed unsupported_database put_failed scan_failed : QueueError
  task_not_found : Bytes → QueueError
  task_not_claimed : Bytes → QueueError

-- "queue/<name>/"
unfoldable pub queue_prefix : PriorityQueue → Bytes
queue_prefix pq = codes "queue/" ++ (pq.config.name ++ codes "/")

-- "_queue_stats/<queue>/<name>"
unfoldable pub stat_key : PriorityQueue → Bytes → Bytes
stat_key pq name = codes "_queue_stats/" ++ (pq.config.name ++ (codes "/" ++ name))
