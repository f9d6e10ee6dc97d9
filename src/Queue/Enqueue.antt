-- ===== src/Queue/Enqueue.antt =====
-- Enqueue.
use sochdb_go.Prelude.{
  ◌≡◌, refl, sym, ◌∙◌, ap, ◌+◌, ◌%◌, ◌^◌, ◌<◌, [], true, false, Option, none, some, arith,
  Option-cases, Bool-cases, inl, inr, if◌then◌else◌, length,
}
use mathlib.Core.Path.{subst}
use sochdb_go.Prelude.Int.{ℤ, IsI64, IsU64, ltℤ}
use sochdb_go.Prelude.Result.{Result, ok, err}
use sochdb_go.Prelude.Bytes.{Bytes, codes}
use sochdb_go.Prelude.Bytes.Order.{bytes_eq, bytes_eq_self}
use sochdb_go.Prelude.Bytes.Prefix.{has_prefix, has_prefix-middle}
use sochdb_go.Store.{Db}
use sochdb_go.Queue.Key.{slash, encode}
use sochdb_go.Queue.Key.RoundTrip.{Lacks, decode-encode}
use sochdb_go.Queue.Task.{
  Task, pending, Json, PriorityQueue, QueueError, queue_prefix, marshal_failed, put_failed,
}
use sochdb_go.Queue.Ops.Scan.{claimable}
use sochdb_go.Queue.Ops.{dequeue, enqueue, new_task, new_key, increment}
use sochdb_go.Queue.Backend.{Backend, IsQueueKey, view-increment_stat}
use sochdb_go.Queue.Dequeue.{SameElsewhere, dequeue_finds}

-- The key of a new task stands among the queue's.
pub encode-IsQueueKey :
    (pq : PriorityQueue) (task_id : Bytes) (now priority : ℤ)
    → IsQueueKey pq (encode (new_key pq task_id now priority))
unfolding encode queue_prefix has_prefix
encode-IsQueueKey pq task_id now priority = has_prefix-middle pq.config.name _ slash

module _ {S Meta Blob : Type 0} {db : Db S Blob} {json : Json Meta Blob} (b : Backend db json) where
  module _ (task_id : Bytes) (now priority : ℤ) (payload : Bytes) (metadata : Meta)
      (pq : PriorityQueue) (s : S) where
    abbrev key : Bytes
    key = encode (new_key pq task_id now priority)

    abbrev task : Task Meta
    task = new_task task_id now priority payload metadata

    -- The handle with its counter moved on by one, modulo 2^64.
    abbrev pub next_handle : PriorityQueue
    next_handle = record pq { sequence_counter = (pq.sequence_counter + 1) % 2 ^ 64 }

    abbrev outcome : Option Blob → Result QueueError Bytes × PriorityQueue × S
    outcome none = (err marshal_failed, next_handle, s)
    outcome (some value) =
        if (b.put key value s).1
        then (
          ok task_id,
          next_handle,
          increment db json pq (codes "pending")
              (increment db json pq (codes "totalEnqueued") (b.put key value s).0),
        )
        else (err put_failed, next_handle, (b.put key value s).0)

    enqueue_lem :
        enqueue db json task_id now priority payload metadata pq s
        ≡ outcome (json.marshal_task task)
    unfolding enqueue
    enqueue_lem = elim (Option-cases (json.marshal_task task)) [
      | inl e ↦ rw (e, enqueue)
      | inr (value, e) ↦ simp (e, enqueue, b.put_is)
    ]

    -- Whatever comes of it, the handle's counter moves on by one, modulo 2^64, and its
    -- configuration stays.
    pub enqueue-sequence :
        (enqueue db json task_id now priority payload metadata pq s).1 ≡ next_handle
    enqueue-sequence = rw enqueue_lem (go (json.marshal_task task))
      where
        go : (o : Option Blob) → (outcome o).1 ≡ next_handle
        go none = refl
        go (some value) = ground arith

    view-counted :
        (value : Blob) (j : Bytes)
        → (b.put key value s).1 ≡ true
        → IsQueueKey pq j
        → b.view (outcome (some value)).2 j ≡ (if bytes_eq key j then some value else b.view s j)
    view-counted value j done q = rw done (
        view-increment_stat b pq j q (codes "pending") _
        ∙ view-increment_stat b pq j q (codes "totalEnqueued") _
        ∙ b.put_lawful.put_done key value s j done)

    stores :
        (id : Bytes)
        → (enqueue db json task_id now priority payload metadata pq s).0 ≡ ok id
        → (id ≡ task_id)
          × (value : Blob) × (json.marshal_task task ≡ some value)
          × (b.view (enqueue db json task_id now priority payload metadata pq s).2 key ≡ some value)
          × SameElsewhere b pq key s (enqueue db json task_id now priority payload metadata pq s).2
    stores id h = rw enqueue_lem (
        go (json.marshal_task task) refl
          (ap (λ (p : Result QueueError Bytes × PriorityQueue × S). p.0) (sym enqueue_lem) ∙ h))
      where
        go :
            (o : Option Blob)
            → json.marshal_task task ≡ o
            → (outcome o).0 ≡ ok id
            → (id ≡ task_id)
              × (value : Blob) × (json.marshal_task task ≡ some value)
              × (b.view (outcome o).2 key ≡ some value)
              × SameElsewhere b pq key s (outcome o).2
        go none e k = cc
        go (some value) e k = elim (Bool-cases (b.put key value s).1) [
          | inr failed ↦ cc (rw failed at k)
          | inl done ↦ (
            ground (arith, rw done at k),
            value,
            e,
            view-counted value key done (encode-IsQueueKey pq task_id now priority)
                ∙ rw (bytes_eq_self key),
            λ j q ne. view-counted value j done q ∙ rw ne,
          )
        ]

    -- The key of the queue's name, the priority, the time, the handle's counter and the task's id.
    abbrev pub enqueued_key : Bytes
    enqueued_key = encode (record {
      queue_id = pq.config.name;
      priority = priority;
      ready_ts = now;
      sequence = pq.sequence_counter;
      task_id = task_id;
    })

    -- The task that waits since `now`: pending, never claimed, completed or tried.
    abbrev pub fresh_task : Task Meta
    fresh_task = record {
      task_id = task_id;
      priority = priority;
      payload = payload;
      state = pending;
      enqueued_at = now;
      claimed_at = none;
      claimed_by = [];
      completed_at = none;
      retries = 0;
      metadata = metadata;
    }

    -- If Enqueue succeeds, it returns the task's id; under the key of the queue's name, the priority,
    -- the time, the handle's counter and the id stands the marshalled task, with these values, the
    -- payload and the metadata, pending, never claimed or completed, and with no retries. No other
    -- entry of the queue changes, and the handle's counter moves on by one, modulo 2^64.
    pub enqueue_stores :
        (id : Bytes)
        → (enqueue db json task_id now priority payload metadata pq s).0 ≡ ok id
        → (id ≡ task_id)
          × (value : Blob) × (json.marshal_task fresh_task ≡ some value)
          × (b.view (enqueue db json task_id now priority payload metadata pq s).2 enqueued_key
              ≡ some value)
          × SameElsewhere b pq enqueued_key s
              (enqueue db json task_id now priority payload metadata pq s).2
          × ((enqueue db json task_id now priority payload metadata pq s).1 ≡ next_handle)
    enqueue_stores id h =
        let (same, value, marshalled, there, elsewhere) = stores id h in
        (same, value, marshalled, there, elsewhere, enqueue-sequence)

    fresh-claimable :
        (value : Blob) (later : ℤ)
        → b.json_lawful.is_text task_id ≡ true
        → json.marshal_task task ≡ some value
        → Lacks slash pq.config.name
        → 0 < length task_id
        → IsI64 priority
        → IsI64 now
        → IsU64 pq.sequence_counter
        → ltℤ later now ≡ false
        → (m : Meta) × (claimable json later (key, value) ≡ some (record task { metadata = m }))
    unfolding claimable
    fresh-claimable value later text e lacks nonempty hp hn hs h =
        let (m, read) = b.json_lawful.read_back task value text b.json_lawful.is_text_empty tt e in
        (
          m,
          rw (read, claimable)
              (rw (decode-encode (new_key pq task_id now priority) lacks nonempty hp hn hs)
                (rw h refl)),
        )

    -- In a queue whose name has no slash, with numbers in range and a task id of valid UTF-8 that
    -- is not empty: after an Enqueue that succeeds, at each time from then on, the entry under the
    -- new key can be claimed, and holds this task but for the metadata, which are in the form that
    -- JSON gives back. If the scan ends with no error and writes succeed, Dequeue then returns a
    -- task.
    pub enqueue-claimable :
        (id : Bytes) (later : ℤ) (worker_id : Bytes)
        → (enqueue db json task_id now priority payload metadata pq s).0 ≡ ok id
        → b.json_lawful.is_text task_id ≡ true
        → Lacks slash pq.config.name
        → 0 < length task_id
        → IsI64 priority
        → IsI64 now
        → IsU64 pq.sequence_counter
        → ltℤ later now ≡ false
        → (b.scan
            (queue_prefix pq)
            (enqueue db json task_id now priority payload metadata pq s).2).1
          ≡ true
        → ((j : Bytes) (w : Blob) (u : S) → (b.put j w u).1 ≡ true)
        → (value : Blob) × (m : Meta) × (b.view
              (enqueue db json task_id now priority payload metadata pq s).2
              enqueued_key
            ≡ some value)
          × (claimable json later (enqueued_key, value) ≡ some (record fresh_task { metadata = m }))
          × ((t : Task Meta) × ((dequeue db json later worker_id
                  (enqueue db json task_id now priority payload metadata pq s).1
                  (enqueue db json task_id now priority payload metadata pq s).2).0
                ≡ ok (some t)))
    unfolding queue_prefix
    enqueue-claimable id later worker_id h text lacks nonempty hp hn hs time fine writes =
        let s' : S = (enqueue db json task_id now priority payload metadata pq s).2 in
        let (same, value, marshalled, there, elsewhere) = stores id h in
        let (m, claimed) =
          fresh-claimable value later text marshalled lacks nonempty hp hn hs time in
        (
          value,
          m,
          there,
          claimed,
          subst
              (λ (handle : PriorityQueue).
                (t : Task Meta) × ((dequeue db json later worker_id handle s').0 ≡ ok (some t)))
              (sym enqueue-sequence)
              (dequeue_finds b later worker_id next_handle s' key value fine writes
                (encode-IsQueueKey pq task_id now priority) there (λ e. cc)),
        )
