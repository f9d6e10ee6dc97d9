-- ===== src/Queue/Ops/Scan.antt =====
-- The loops over the entries of a scan.
use sochdb_go.Prelude.{ℕ, suc, List, [], ◌∷◌, Bool, true, false, Option, none, some, if◌then◌else◌}
use sochdb_go.Prelude.Int.{ℤ, ltℤ}
use sochdb_go.Prelude.Result.{Result, ok, err}
use sochdb_go.Prelude.Bytes.{Bytes}
use sochdb_go.Prelude.Bytes.Order.{bytes_eq}
use sochdb_go.Queue.Key.{QueueKey, KeyError, decode_queue_key}
use sochdb_go.Queue.Task.{Task, is_pending, is_finished, Json}

-- The time test on a decoded key.
abbrev pub due : ℤ → Result KeyError QueueKey → Bool
due now (err e) = false
due now (ok qk) = if ltℤ now qk.ready_ts then false else true

module _ {Meta Blob : Type 0} (json : Json Meta Blob) where
  -- The body of Dequeue's loop up to the claim: the task, unless a `continue` skips the entry.
  unfoldable pub claimable : ℤ → Bytes × Blob → Option (Task Meta)
  claimable now (key, value) = elim (json.unmarshal_task value) [
    | none ↦ none
    | some task ↦
        if is_pending task.state
        then (if due now (decode_queue_key key) then some task else none)
        else none
  ]

  -- The same in the loop over an IPC scan, which looks at no time.
  unfoldable pub claimable_ipc : Bytes × Blob → Option (Task Meta)
  claimable_ipc (key, value) = elim (json.unmarshal_task value) [
    | none ↦ none
    | some task ↦ if is_pending task.state then some task else none
  ]

  -- The bodies of getTask's and updateTask's loops.
  unfoldable pub has_task_id : Bytes → Bytes × Blob → Option (Task Meta)
  has_task_id task_id (key, value) = elim (json.unmarshal_task value) [
    | none ↦ none
    | some task ↦ if bytes_eq task.task_id task_id then some task else none
  ]

  -- Purge's test.
  unfoldable pub purgeable : Bytes × Blob → Bool
  purgeable (key, value) = elim (json.unmarshal_task value) [
    | none ↦ false
    | some task ↦ is_finished task.state
  ]

module _ {A B : Type 0} where
  -- The loops end at the first entry that is not skipped.
  unfoldable pub first_match : (Bytes × A → Option B) → List (Bytes × A) → Option (Bytes × B)
  first_match f [] = none
  first_match f ((key, value) ∷ rest) =
      let later = first_match f rest in
      elim (f (key, value)) [ none ↦ later | some b ↦ some (key, b) ]

module _ {A : Type 0} where
  -- The keys that Purge collects.
  unfoldable pub keys_where : (Bytes × A → Bool) → List (Bytes × A) → List Bytes
  keys_where p [] = []
  keys_where p ((key, value) ∷ rest) =
      let later = keys_where p rest in if p (key, value) then key ∷ later else later

-- Deletes the keys and counts the calls that succeed.
unfoldable pub delete_all : {S : Type 0} → (Bytes → S → S × Bool) → List Bytes → S → S × ℕ
delete_all delete [] s = (s, 0)
delete_all delete (key ∷ keys) s =
    let (s1, done) = delete key s in
    let (s2, purged) = delete_all delete keys s1 in (s2, (if done then suc purged else purged))
