-- ===== src/Queue/Update.antt =====
-- updateTask and what follows it in Ack and Nack.
use sochdb_go.Prelude.{
  ◌≡◌, refl, sym, ◌∙◌, ap, Bool, true, Option, none, some, Option-cases, Bool-cases, inl, inr,
  if◌then◌else◌,
}
use sochdb_go.Prelude.Result.{Result, ok, err}
use sochdb_go.Prelude.Bytes.{Bytes}
use sochdb_go.Prelude.Bytes.Order.{bytes_eq, bytes_eq_self}
use sochdb_go.Store.{Db}
use sochdb_go.Queue.Task.{Task, IsKnown, Json, PriorityQueue, QueueError, put_failed, queue_prefix}
use sochdb_go.Queue.Ops.Scan.{has_task_id, first_match}
use sochdb_go.Queue.Ops.{
  scan_entries, get_task, update_task, store_and_count, marshal_or_nil, increment, decrement,
}
use sochdb_go.Queue.Backend.{
  Backend, IsQueueKey, view-increment_stat, view-decrement_stat, marshal_or_nil_reads_back,
}
use sochdb_go.Queue.Matching.{first_match_found, has_task_id_inv}
use sochdb_go.Queue.Dequeue.{SameElsewhere}

module _ {S Meta Blob : Type 0} {db : Db S Blob} {json : Json Meta Blob} (b : Backend db json) where
  scan_entries_lem :
      (pq : PriorityQueue) (s : S) → scan_entries db json pq s ≡ ok (b.scan (queue_prefix pq) s).0
  unfolding scan_entries
  scan_entries_lem pq s = rw b.scan_is

  -- The entry that holds the task with this id.
  abbrev pub found : Bytes → PriorityQueue → S → Option (Bytes × Task Meta)
  found task_id pq s = first_match (has_task_id json task_id) (b.scan (queue_prefix pq) s).0

  abbrev value_of : Option (Bytes × Task Meta) → Option (Task Meta)
  value_of none = none
  value_of (some (key, task)) = some task

  pub get_task_lem :
      (task_id : Bytes) (pq : PriorityQueue) (s : S)
      → get_task db json task_id pq s ≡ ok (value_of (found task_id pq s))
  unfolding get_task first_match
  get_task_lem task_id pq s =
      rw (scan_entries_lem pq s, get_task)
        (elim (Option-cases (found task_id pq s)) [ inl e ↦ rw e | inr (x, e) ↦ rw e ])

  -- The task `old` was stored under its id, and `new` is stored in its place.
  pub record Updated (pq : PriorityQueue) (s : S) (old new : Task Meta) (s' : S) : Type 0 where
    pub key : Bytes
    pub value : Blob
    pub queue_key : IsQueueKey pq key
    pub was_there : b.view s key ≡ some value
    pub was : json.unmarshal_task value ≡ some old
    pub stored : Blob
    pub is_there : b.view s' key ≡ some stored
    pub reads_back : json.unmarshal_task stored ≡ some new
    pub same_elsewhere : SameElsewhere b pq key s s'

  -- The entries of the queue are as before.
  abbrev pub Unchanged : PriorityQueue → S → S → Type 0
  Unchanged pq s s' = (j : Bytes) → IsQueueKey pq j → b.view s' j ≡ b.view s j

  module _ (pq : PriorityQueue) (s : S) (key : Bytes) (old new : Task Meta) (down up : Bytes)
      (entry : found new.task_id pq s ≡ some (key, old)) where
    update_task_lem : update_task db json new pq s ≡ (
        if (b.put key (marshal_or_nil db json new) s).1
        then (ok tt, (b.put key (marshal_or_nil db json new) s).0)
        else (err put_failed, (b.put key (marshal_or_nil db json new) s).0))
    unfolding update_task marshal_or_nil
    update_task_lem = rw (b.put_is, update_task) (rw (scan_entries_lem pq s) (rw entry refl))

    abbrev written : S × Bool
    written = b.put key (marshal_or_nil db json new) s

    abbrev counted : Result QueueError (Unit {0}) × S → Result QueueError (Unit {0}) × S
    counted p = elim p.0 [
      | err e ↦ (err e, p.1)
      | ok _ ↦ (ok tt, increment db json pq up (decrement db json pq down p.1))
    ]

    store_and_count_lem : store_and_count db json new down up pq s ≡ (
        if written.1
        then (ok tt, increment db json pq up (decrement db json pq down written.0))
        else (err put_failed, written.0))
    unfolding store_and_count
    store_and_count_lem =
        ap counted update_task_lem ∙ (elim (Bool-cases written.1) [ inl e ↦ rw e | inr e ↦ rw e ])

    view-store_and_count :
        (j : Bytes)
        → IsQueueKey pq j
        → written.1 ≡ true
        → b.view (store_and_count db json new down up pq s).1 j
          ≡ (if bytes_eq key j then some (marshal_or_nil db json new) else b.view s j)
    view-store_and_count j q e = rw store_and_count_lem (
        rw e (
          view-increment_stat b pq j q up _
          ∙ view-decrement_stat b pq j q down _
          ∙ b.put_lawful.put_done key (marshal_or_nil db json new) s j e))

    -- Where the write succeeds the task is replaced, and no other entry of the queue changes.
    pub store_and_count-Updated :
        new.metadata ≡ old.metadata
        → (b.json_lawful.is_text old.claimed_by ≡ true
            → b.json_lawful.is_text new.claimed_by ≡ true)
        → IsKnown new.state
        → (store_and_count db json new down up pq s).0 ≡ ok tt
        → Updated pq s old new (store_and_count db json new down up pq s).1
    store_and_count-Updated m text known h =
        let (value, member, passed) =
          first_match_found (has_task_id json new.task_id) _ key old entry in
        let (q, there) = b.scan_lawful.scan_sound (queue_prefix pq) s key value member in
        let (was, same) = has_task_id_inv json new.task_id key value old passed in
        let done = succeeded h in
        record {
          key = key;
          value = value;
          queue_key = q;
          was_there = there;
          was = was;
          stored = marshal_or_nil db json new;
          is_there = view-store_and_count key q done ∙ rw (bytes_eq_self key);
          reads_back =
              marshal_or_nil_reads_back b old new value was (sym same) m
                (text (b.json_lawful.is_text_read value old was)) known;
          same_elsewhere = λ j r ne. view-store_and_count j r done ∙ rw ne;
        }
      where
        succeeded : (store_and_count db json new down up pq s).0 ≡ ok tt → written.1 ≡ true
        succeeded k = elim (Bool-cases written.1) [
          | inl e ↦ e
          | inr e ↦ cc (rw e at (rw store_and_count_lem at k))
        ]

    pub store_and_count_err :
        (e : QueueError)
        → (store_and_count db json new down up pq s).0 ≡ err e
        → Unchanged pq s (store_and_count db json new down up pq s).1
    store_and_count_err e h j q = elim (Bool-cases written.1) [
      | inl f ↦ cc (rw f at (rw store_and_count_lem at h))
      | inr f ↦
          rw store_and_count_lem
            (rw f (b.put_lawful.put_failed key (marshal_or_nil db json new) s j f))
    ]

    pub store_and_count_ok :
        ((k : Bytes) (v : Blob) (u : S) → (b.put k v u).1 ≡ true)
        → (store_and_count db json new down up pq s).0 ≡ ok tt
    store_and_count_ok writes =
        rw store_and_count_lem (rw (writes key (marshal_or_nil db json new) s) refl)
