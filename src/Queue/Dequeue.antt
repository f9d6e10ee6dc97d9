-- ===== src/Queue/Dequeue.antt =====
-- Dequeue on a database with ScanPrefix, and on one without.
use sochdb_go.Prelude.{
  ◌≡◌, refl, sym, ◌∙◌, ap, ◌≢◌, List, true, false, Option, none, some, ◌⊎◌, inl, inr, arith,
  Option-cases, Bool-cases, if◌then◌else◌,
}
use mathlib.Core.Path.{subst}
use sochdb_go.Prelude.Int.{ℤ, ltℤ}
use sochdb_go.Prelude.Result.{Result, ok, err}
use sochdb_go.Prelude.Bytes.{Bytes, codes}
use sochdb_go.Prelude.Bytes.Order.{bytes_eq, bytes_eq_self, ◌≺◌}
use sochdb_go.Store.{Db}
use sochdb_go.Queue.Key.{QueueKey, KeyError, decode_queue_key}
use sochdb_go.Queue.Task.{
  IsKnown, Task, pending, claimed, Json, PriorityQueue, QueueError, scan_failed, queue_prefix,
}
use sochdb_go.Queue.Ops.Scan.{due, claimable, first_match}
use sochdb_go.Queue.Ops.{
  claim, claim_task, dequeue, dequeue_ipc, marshal_or_nil, increment, decrement,
}
use sochdb_go.Queue.Backend.{
  Backend, IsQueueKey, view-increment_stat, view-decrement_stat, marshal_or_nil_reads_back,
  both_scan_prefix, both_scan,
}
use sochdb_go.Queue.Matching.{first_match_found, first_match-none, first_match_least, claimable_inv}

-- Without ScanPrefix and without Scan there is nothing to dequeue, whatever is stored.
pub dequeue_no_scan :
    {S Meta Blob : Type 0} (db : Db S Blob) (json : Json Meta Blob)
    → db.scan_prefix ≡ none
    → db.scan ≡ none
    → (now : ℤ) (worker_id : Bytes) (pq : PriorityQueue) (s : S)
    → dequeue db json now worker_id pq s ≡ (ok none, s)
unfolding dequeue dequeue_ipc
dequeue_no_scan db json a b now worker_id pq s = rw (a, b)

due_inv :
    (now : ℤ) (k : Bytes)
    → due now (decode_queue_key k) ≡ true
    → (queue_key : QueueKey) × (decode_queue_key k ≡ ok queue_key)
      × (ltℤ now queue_key.ready_ts ≡ false)
due_inv now k h = go (decode_queue_key k) refl h
  where
    go :
        (r : Result KeyError QueueKey)
        → decode_queue_key k ≡ r
        → due now r ≡ true
        → (queue_key : QueueKey) × (decode_queue_key k ≡ ok queue_key)
          × (ltℤ now queue_key.ready_ts ≡ false)
    go (err e) read passed = absurd (cc)
    go (ok queue_key) read passed = (queue_key, read, ground arith)

module _ {S Meta Blob : Type 0} {db : Db S Blob} {json : Json Meta Blob} (b : Backend db json) where
  -- Every other key of the queue holds what it held.
  abbrev pub SameElsewhere : PriorityQueue → Bytes → S → S → Type 0
  SameElsewhere pq key s s' =
      (j : Bytes) → IsQueueKey pq j → bytes_eq key j ≡ false → b.view s' j ≡ b.view s j

  -- No entry of the queue that could be claimed has a smaller key.
  abbrev pub Least : ℤ → PriorityQueue → Bytes → S → Type 0
  Least now pq key s =
      (j : Bytes) (w : Blob)
      → IsQueueKey pq j
      → b.view s j ≡ some w
      → claimable json now (j, w) ≢ none
      → (j ≡ key) ⊎ ◌≺◌ key j

  module _ (now : ℤ) (worker_id : Bytes) (pq : PriorityQueue) (s : S) where
    abbrev entries : List (Bytes × Blob)
    entries = (b.scan (queue_prefix pq) s).0

    abbrev outcome : Option (Bytes × Task Meta) → Result QueueError (Option (Task Meta)) × S
    outcome none = if (b.scan (queue_prefix pq) s).1 then (ok none, s) else (err scan_failed, s)
    outcome (some entry) = claim db json b.put now worker_id pq entry s

    dequeue_lem :
        dequeue db json now worker_id pq s ≡ outcome (first_match (claimable json now) entries)
    unfolding dequeue dequeue_ipc
    dequeue_lem =
        rw (both_scan_prefix b, dequeue)
          (elim (Option-cases (first_match (claimable json now) entries)) [
            | inl e ↦ rw e (rw (both_scan b, dequeue_ipc) refl)
            | inr (x, e) ↦ rw e
          ])

    claim_inv :
        (entry : Bytes × Task Meta) (t : Task Meta)
        → (claim db json b.put now worker_id pq entry s).0 ≡ ok (some t)
        → (t ≡ claim_task now worker_id entry.1)
          × ((b.put entry.0 (marshal_or_nil db json t) s).1 ≡ true)
          × ((claim db json b.put now worker_id pq entry s).1
              ≡ increment db json pq (codes "totalDequeued") (
                  increment db json pq (codes "claimed") (
                    decrement db json pq
                      (codes "pending")
                      (b.put entry.0 (marshal_or_nil db json t) s).0)))
    unfolding claim
    claim_inv entry t h = ground (arith)

  -- The entry under `key` was a pending task of the queue whose time had come, and it is stored
  -- as claimed.
  pub record Claimed (now : ℤ) (worker_id : Bytes) (pq : PriorityQueue) (s : S) (t : Task Meta)
      (s' : S) : Type 0 where
    pub key : Bytes
    pub value : Blob
    pub task : Task Meta
    pub queue_key : IsQueueKey pq key
    pub was_there : b.view s key ≡ some value
    pub was_read : json.unmarshal_task value ≡ some task
    pub was_pending : task.state ≡ pending
    pub was_due :
        (queue_key : QueueKey) × (decode_queue_key key ≡ ok queue_key)
        × (ltℤ now queue_key.ready_ts ≡ false)
    pub returned :
        t ≡ record task { state = claimed; claimed_at = some now; claimed_by = worker_id }
    pub stored : Blob
    pub is_there : b.view s' key ≡ some stored
    pub reads_back : json.unmarshal_task stored ≡ some t
    pub same_elsewhere : SameElsewhere pq key s s'
    pub least : (b.scan (queue_prefix pq) s).1 ≡ true → Least now pq key s

  module _ (now : ℤ) (worker_id : Bytes) (pq : PriorityQueue) (s : S) where
    view-claim :
        (entry : Bytes × Task Meta) (t : Task Meta) (j : Bytes)
        → (claim db json b.put now worker_id pq entry s).0 ≡ ok (some t)
        → IsQueueKey pq j
        → b.view (claim db json b.put now worker_id pq entry s).1 j
          ≡ (if bytes_eq entry.0 j then some (marshal_or_nil db json t) else b.view s j)
    view-claim entry t j h q =
        let (e, done, rest) = claim_inv now worker_id pq s entry t h in
        ap (λ u. b.view u j) rest
        ∙ view-increment_stat b pq j q (codes "totalDequeued") _
        ∙ view-increment_stat b pq j q (codes "claimed") _
        ∙ view-decrement_stat b pq j q (codes "pending") _
        ∙ b.put_lawful.put_done entry.0 (marshal_or_nil db json t) s j done

    claim-Claimed :
        (key : Bytes) (task t : Task Meta)
        → b.json_lawful.is_text worker_id ≡ true
        → first_match (claimable json now) (b.scan (queue_prefix pq) s).0 ≡ some (key, task)
        → (claim db json b.put now worker_id pq (key, task) s).0 ≡ ok (some t)
        → Claimed now worker_id pq s t (claim db json b.put now worker_id pq (key, task) s).1
    claim-Claimed key task t text found h =
        let (value, member, passed) =
          first_match_found (claimable json now) (b.scan (queue_prefix pq) s).0 key task found in
        let (prefixed, there) = b.scan_lawful.scan_sound (queue_prefix pq) s key value member in
        let e = (claim_inv now worker_id pq s (key, task) t h).0 in
        let was = claimable_inv json now key value task passed in
        record {
          key = key;
          value = value;
          task = task;
          queue_key = prefixed;
          was_there = there;
          was_read = was.0;
          was_pending = was.1;
          was_due = due_inv now key was.2;
          returned = e;
          stored = marshal_or_nil db json t;
          is_there = view-claim (key, task) t key h prefixed ∙ rw (bytes_eq_self key);
          reads_back =
              marshal_or_nil_reads_back b task t value was.0 (ap (λ (u : Task Meta). u.task_id) e)
                (ap (λ (u : Task Meta). u.metadata) e)
                (ap (λ (u : Task Meta). b.json_lawful.is_text u.claimed_by) e ∙ text)
                (subst IsKnown (sym (ap (λ (u : Task Meta). u.state) e)) tt);
          same_elsewhere = λ j q ne. view-claim (key, task) t j h q ∙ rw ne;
          least = λ fine j w q there' passes.
              first_match_least (claimable json now) _ key task
                (b.scan_lawful.scan_rising (queue_prefix pq) s) found j w
                (b.scan_lawful.scan_complete (queue_prefix pq) s j w fine q there') passes;
        }

    -- If Dequeue, for a worker whose id is valid UTF-8, on a lawful database with ScanPrefix
    -- returns a task, then a task was stored in the queue as pending, the ready time in its key had
    -- come, and the key was the least of all such (if the scan ended with no error). The task is
    -- returned with the state claimed, claimed now by the worker, and its other fields as they
    -- were; it is stored so, and every other entry of the queue is as before.
    pub dequeue_claims :
        (t : Task Meta)
        → b.json_lawful.is_text worker_id ≡ true
        → (dequeue db json now worker_id pq s).0 ≡ ok (some t)
        → Claimed now worker_id pq s t (dequeue db json now worker_id pq s).1
    dequeue_claims t text h = rw (dequeue_lem now worker_id pq s) (
        go (first_match (claimable json now) (entries now worker_id pq s)) refl (
          ap (λ (p : Result QueueError (Option (Task Meta)) × S). p.0)
            (sym (dequeue_lem now worker_id pq s))
          ∙ h))
      where
        go :
            (o : Option (Bytes × Task Meta))
            → first_match (claimable json now) (b.scan (queue_prefix pq) s).0 ≡ o
            → (outcome now worker_id pq s o).0 ≡ ok (some t)
            → Claimed now worker_id pq s t (outcome now worker_id pq s o).1
        go none e h' = elim (Bool-cases (b.scan (queue_prefix pq) s).1) [
          | inl fine ↦ cc (rw fine at h')
          | inr broken ↦ cc (rw broken at h')
        ]
        go (some (key, task)) e h' = claim-Claimed key task t text e h'

    -- Where no entry of the queue can be claimed and the scan ends with no error, Dequeue returns
    -- no task and changes nothing.
    pub dequeue_nothing :
        (b.scan (queue_prefix pq) s).1 ≡ true
        → ((k : Bytes) (v : Blob)
            → IsQueueKey pq k
            → b.view s k ≡ some v
            → claimable json now (k, v) ≡ none)
        → dequeue db json now worker_id pq s ≡ (ok none, s)
    dequeue_nothing fine nothing =
        dequeue_lem now worker_id pq s
        ∙ (elim (Option-cases (first_match (claimable json now) (entries now worker_id pq s))) [
          | inl e ↦ rw e (rw fine refl)
          | inr ((k, t), e) ↦
              let (v, member, passed) = first_match_found (claimable json now) _ k t e in
              let (q, there) = b.scan_lawful.scan_sound (queue_prefix pq) s k v member in
              absurd (cc (nothing k v q there, passed))
        ])

    -- Where the queue has an entry that can be claimed, the scan ends with no error and writes
    -- succeed, Dequeue returns a task.
    pub dequeue_finds :
        (k : Bytes) (v : Blob)
        → (b.scan (queue_prefix pq) s).1 ≡ true
        → ((j : Bytes) (w : Blob) (u : S) → (b.put j w u).1 ≡ true)
        → IsQueueKey pq k
        → b.view s k ≡ some v
        → claimable json now (k, v) ≢ none
        → (t : Task Meta) × ((dequeue db json now worker_id pq s).0 ≡ ok (some t))
    unfolding claim
    dequeue_finds k v fine writes q there passes =
        elim (Option-cases (first_match (claimable json now) (entries now worker_id pq s))) [
          | inl e ↦ absurd (
              passes (
                first_match-none (claimable json now) _ e k v
                  (b.scan_lawful.scan_complete (queue_prefix pq) s k v fine q there)))
          | inr ((j, t), e) ↦ (
            claim_task now worker_id t,
            rw (dequeue_lem now worker_id pq s) (
                rw e
                  (rw (writes j (marshal_or_nil db json (claim_task now worker_id t)) s, claim))),
          )
        ]
