-- ===== src/Queue/Tests.antt =====
-- The queue on a database in memory: runs, and the theorems at concrete inputs.
use sochdb_go.Prelude.{
  ℕ, ◌≡◌, refl, ◌<◌, ◌↔◌, [], ◌∷◌, true, Option, none, some, arith, length, if◌then◌else◌,
}
use sochdb_go.Prelude.Int.{pos, negsuc, to_u64, of_u64}
use sochdb_go.Prelude.Result.{Result, ok, err}
use sochdb_go.Prelude.Bytes.{Bytes, codes}
use sochdb_go.Queue.Ops.Stats.{increment_stat, decrement_stat, get_stat, put_stat}
use sochdb_go.Prelude.Bytes.Order.{cmp_bytes, bytes_eq}
use sochdb_go.Prelude.Bytes.Endian.{put_be, get_be, get_be_from}
use sochdb_go.Prelude.Bytes.Prefix.{has_prefix}
use sochdb_go.Store.{Db}
use sochdb_go.Store.Memory.{
  Memory, memory_db, view_of, view, insert, remove, get, put, delete, scan_prefix, put-LawfulPut,
  delete-LawfulDelete, scan_prefix-LawfulScan, matching,
}
use sochdb_go.Queue.Key.{
  QueueKey, slash, encode, decode_queue_key, encode_i64_be, encode_u64_be, decode_i64_be,
  decode_u64_be, find_boundary, read_field, expect_slash, decode_fields,
}
use sochdb_go.Queue.Key.RoundTrip.{Lacks}
use sochdb_go.Queue.Key.Shape.{decode-encode_iff}
use sochdb_go.Queue.Key.Sorting.{cmp_bytes-encode, urgency}
use sochdb_go.Queue.Task.{
  stat_key, Task, pending, claimed, completed, Json, LawfulJson, PriorityQueue, QueueError,
  queue_prefix, task_not_claimed,
}
use sochdb_go.Queue.Ops.{
  claim, dequeue_ipc, marshal_or_nil, get_task, update_task, scan_entries, store_and_count,
  new_task, new_key, enqueue, dequeue, ack, nack, purge, claim_task, complete_task, retry_task,
}
use sochdb_go.Queue.Ops.Scan.{
  first_match, claimable_ipc, has_task_id, delete_all, claimable, purgeable, keys_where,
}
use sochdb_go.Queue.Backend.{Backend, IsQueueKey}
use sochdb_go.Queue.Dequeue.{
  Claimed, dequeue_no_scan, dequeue_claims, dequeue_nothing, dequeue_finds, SameElsewhere,
}
use sochdb_go.Queue.Update.{Updated, Unchanged, found}
use sochdb_go.Queue.Lifecycle.{ack_completes, ack_err, Retried, nack_retries, nack_reopens}
use sochdb_go.Queue.Enqueue.{
  enqueued_key, fresh_task, next_handle, enqueue_stores, enqueue-claimable,
}
use sochdb_go.Queue.Purge.{purge_removes}

-- Stored values: a marshalled task, a marshalled count, or bytes that are neither.
data Stored : Type 0 where
  task_text : Task ℕ → Stored
  count_text : ℕ → Stored
  no_json : Stored

abbrev read_task : Stored → Option (Task ℕ)
read_task (task_text t) = some t
read_task (count_text n) = none
read_task no_json = none

abbrev read_count : Stored → ℕ
read_count (task_text t) = 0
read_count (count_text n) = n
read_count no_json = 0

abbrev text_json : Json ℕ Stored
text_json = record {
  nil = no_json;
  marshal_task = λ t. some (task_text t);
  unmarshal_task = read_task;
  marshal_count = count_text;
  unmarshal_count = read_count;
}

some_task_text : (t : Task ℕ) (b : Stored) → some (task_text t) ≡ some b → read_task b ≡ some t
some_task_text t (task_text u) e = ground arith
some_task_text t (count_text n) e = cc
some_task_text t no_json e = cc

abbrev text_json_lawful : LawfulJson text_json
text_json_lawful = record {
  is_text = λ t. true;
  is_text_empty = refl;
  is_text_read = λ b t e. refl;
  read_back = λ t b i c s e. (t.metadata, some_task_text t b e);
  write_again = λ read t b e i m c s. (task_text t, refl, refl);
  count_read_back = λ n. refl;
}

abbrev db : Db (Memory Stored) Stored
db = memory_db

abbrev backend : Backend db text_json
backend = record {
  view = view_of;
  put = put;
  scan = scan_prefix;
  put_is = refl;
  scan_is = refl;
  no_ipc = refl;
  put_lawful = put-LawfulPut;
  scan_lawful = scan_prefix-LawfulScan;
  json_lawful = text_json_lawful;
}

abbrev empty_db : Memory Stored
empty_db = ([], tt)

abbrev jobs : PriorityQueue
jobs = record {
  config = record {
    name = codes "jobs";
    visibility_timeout = 30000;
    max_retries = 3;
    dead_letter_queue = [];
  };
  sequence_counter = 0;
}

-- What a run computes with.
runs : Unit {0}
unfolding dequeue enqueue ack nack purge scan_prefix put get delete encode decode_queue_key
    first_match matching increment_stat put_stat insert view remove cmp_bytes stat_key has_prefix
    queue_prefix encode_i64_be put_be to_u64 claimable encode_u64_be bytes_eq find_boundary
    decode_fields get_be get_be_from of_u64 decode_i64_be decode_u64_be expect_slash read_field
    claimable_ipc decrement_stat get_stat claim dequeue_ipc marshal_or_nil get_task has_task_id
    update_task scan_entries store_and_count purgeable keys_where delete_all
runs = tt

-- Two tasks: the second is more urgent.
abbrev slow_id : Bytes
slow_id = codes "1-slow"

abbrev fast_id : Bytes
fast_id = codes "2-fast"

abbrev slow : Task ℕ
slow = new_task slow_id (pos 100) (pos 7) (1 ∷ []) 0

abbrev fast : Task ℕ
fast = new_task fast_id (pos 101) (negsuc 1) (2 ∷ []) 0

abbrev add_slow : Result QueueError Bytes × PriorityQueue × Memory Stored
add_slow = enqueue db text_json slow_id (pos 100) (pos 7) (1 ∷ []) 0 jobs empty_db

abbrev add_fast : Result QueueError Bytes × PriorityQueue × Memory Stored
add_fast = enqueue db text_json fast_id (pos 101) (negsuc 1) (2 ∷ []) 0 add_slow.1 add_slow.2

abbrev worker : Bytes
worker = codes "worker-1"

abbrev take_one : Result QueueError (Option (Task ℕ)) × Memory Stored
take_one = dequeue db text_json (pos 200) worker jobs add_fast.2

-- A worker gets the urgent task first, though it came second.
take_one_gives : take_one.0 ≡ ok (some (claim_task (pos 200) worker fast))
unfolding runs
take_one_gives = refl

dequeue_claims_example :
    Claimed backend (pos 200) worker jobs add_fast.2 (claim_task (pos 200) worker fast) take_one.1
dequeue_claims_example =
    dequeue_claims backend (pos 200) worker jobs add_fast.2 (claim_task (pos 200) worker fast) refl
      take_one_gives

abbrev no_methods : Db (Memory Stored) Stored
no_methods = record db { scan_prefix = none }

no_scan_test : dequeue no_methods text_json (pos 200) worker jobs add_fast.2 ≡ (ok none, add_fast.2)
no_scan_test = dequeue_no_scan no_methods text_json refl refl (pos 200) worker jobs add_fast.2

nothing_stored :
    (k : Bytes) (v : Stored)
    → IsQueueKey jobs k
    → view [] k ≡ some v
    → claimable text_json (pos 200) (k, v) ≡ none
unfolding view
nothing_stored k v q h = cc

dequeue_nothing_test : dequeue db text_json (pos 200) worker jobs empty_db ≡ (ok none, empty_db)
dequeue_nothing_test =
    dequeue_nothing backend (pos 200) worker jobs empty_db scan_fine nothing_stored
  where
    scan_fine : (scan_prefix (queue_prefix jobs) empty_db).1 ≡ true
    scan_fine = unfold scan_prefix in refl

put_works : (k : Bytes) (v : Stored) (s : Memory Stored) → (put k v s).1 ≡ true
unfolding put
put_works k v s = refl

delete_works : (k : Bytes) (s : Memory Stored) → (delete k s).1 ≡ true
unfolding delete
delete_works k s = refl

scan_works : (p : Bytes) (s : Memory Stored) → (scan_prefix p s).1 ≡ true
unfolding scan_prefix
scan_works p s = refl

abbrev slow_key : Bytes
slow_key = encode (new_key jobs slow_id (pos 100) (pos 7))

slow_is_there :
    IsQueueKey jobs slow_key
    × (view_of add_fast.2 slow_key ≡ some (task_text slow))
    × (claimable text_json (pos 200) (slow_key, task_text slow) ≡ some slow)
unfolding runs
slow_is_there = (refl, refl, refl)

dequeue_finds_example : (t : Task ℕ) × (take_one.0 ≡ ok (some t))
dequeue_finds_example =
    dequeue_finds backend (pos 200) worker jobs add_fast.2 slow_key (task_text slow)
      (scan_works _ add_fast.2) put_works slow_is_there.0 slow_is_there.1
      (λ e. cc (slow_is_there.2, e))

-- Two written keys.
abbrev fast_queue_key : QueueKey
fast_queue_key = new_key add_slow.1 fast_id (pos 101) (negsuc 1)

abbrev slow_queue_key : QueueKey
slow_queue_key = new_key jobs slow_id (pos 100) (pos 7)

decode-encode_iff_example :
    (decode_queue_key (encode slow_queue_key) ≡ ok slow_queue_key)
    ↔ (Lacks slash (codes "jobs") × (0 < length slow_id))
decode-encode_iff_example =
    decode-encode_iff slow_queue_key (omega arith) (omega arith) (omega arith)

cmp_bytes-encode_example :
    cmp_bytes (encode slow_queue_key) (encode slow_queue_key)
    ≡ urgency slow_queue_key slow_queue_key
cmp_bytes-encode_example =
    cmp_bytes-encode slow_queue_key slow_queue_key refl (omega arith) (omega arith) (omega arith)
      (omega arith)

abbrev slow_fresh : Task ℕ
slow_fresh = fresh_task backend slow_id (pos 100) (pos 7) (1 ∷ []) 0 jobs empty_db

abbrev slow_enqueued : Bytes
slow_enqueued = enqueued_key backend slow_id (pos 100) (pos 7) (1 ∷ []) 0 jobs empty_db

enqueue_stores_example :
    (slow_id ≡ slow_id)
    × (value : Stored) × (text_json.marshal_task slow_fresh ≡ some value)
    × (view_of add_slow.2 slow_enqueued ≡ some value)
    × SameElsewhere backend jobs slow_enqueued empty_db add_slow.2
    × (add_slow.1 ≡ next_handle backend slow_id (pos 100) (pos 7) (1 ∷ []) 0 jobs empty_db)
unfolding runs
enqueue_stores_example =
    enqueue_stores backend slow_id (pos 100) (pos 7) (1 ∷ []) 0 jobs empty_db slow_id refl

slow_enqueues : add_slow.0 ≡ ok slow_id
unfolding runs
slow_enqueues = refl

enqueue-claimable_example :
    (value : Stored) × (m : ℕ) × (view_of add_slow.2 slow_enqueued ≡ some value)
    × (claimable text_json (pos 200) (slow_enqueued, value)
        ≡ some (record slow_fresh { metadata = m }))
    × ((t : Task ℕ) × ((dequeue db text_json (pos 200) worker add_slow.1 add_slow.2).0
          ≡ ok (some t)))
enqueue-claimable_example =
    enqueue-claimable backend slow_id (pos 100) (pos 7) (1 ∷ []) 0 jobs empty_db slow_id (pos 200)
      worker slow_enqueues refl (ground arith) (omega arith) (omega arith) (omega arith)
      (omega arith) refl (scan_works _ add_slow.2) put_works

-- The claimed task is acknowledged, and then handed back all the same.
abbrev done_one : Result QueueError (Unit {0}) × Memory Stored
done_one = ack db text_json fast_id (pos 300) jobs take_one.1

done_one_works : done_one.0 ≡ ok tt
unfolding runs
done_one_works = refl

ack_completes_example :
    (old : Task ℕ) × (old.task_id ≡ fast_id)
    × (old.state ≡ claimed)
    × Updated backend jobs take_one.1 old
        (record old { state = completed; completed_at = some (pos 300) })
        done_one.1
ack_completes_example = ack_completes backend fast_id jobs take_one.1 (pos 300) done_one_works

abbrev early_ack : Result QueueError (Unit {0}) × Memory Stored
early_ack = ack db text_json slow_id (pos 300) jobs take_one.1

early_ack_fails : early_ack.0 ≡ err (task_not_claimed slow_id)
unfolding runs
early_ack_fails = refl

ack_err_test : Unchanged backend jobs take_one.1 early_ack.1
ack_err_test =
    ack_err backend slow_id jobs take_one.1 (pos 300) (task_not_claimed slow_id) early_ack_fails

nack_works : (nack db text_json fast_id jobs take_one.1).0 ≡ ok tt
unfolding runs
nack_works = refl

nack_retries_example :
    (old : Task ℕ) × (old.task_id ≡ fast_id)
    × Retried backend fast_id jobs take_one.1 old (nack db text_json fast_id jobs take_one.1).1
nack_retries_example = nack_retries backend fast_id jobs take_one.1 nack_works

abbrev done_fast : Task ℕ
done_fast = complete_task (pos 300) (claim_task (pos 200) worker fast)

found_done : found backend fast_id jobs done_one.1 ≡ some (encode fast_queue_key, done_fast)
unfolding runs
found_done = refl

nack_reopens_example :
    ((nack db text_json fast_id jobs done_one.1).0 ≡ ok tt)
    × ((retry_task 3 done_fast).state ≡ pending)
    × Updated backend jobs done_one.1 done_fast
        (retry_task 3 done_fast)
        (nack db text_json fast_id jobs done_one.1).1
nack_reopens_example =
    nack_reopens backend fast_id jobs done_one.1 (encode fast_queue_key) done_fast found_done refl
      (omega arith) put_works

done_is_there :
    IsQueueKey jobs (encode fast_queue_key)
    × (view_of done_one.1 (encode fast_queue_key) ≡ some (task_text done_fast))
unfolding runs
done_is_there = (refl, refl)

purge_removes_example :
    ((purge db text_json jobs done_one.1).0
      ≡ ok (
          length (keys_where (purgeable text_json) (scan_prefix (queue_prefix jobs) done_one.1).0)))
    × (view_of (purge db text_json jobs done_one.1).1 (encode fast_queue_key) ≡ (
        if purgeable text_json (encode fast_queue_key, task_text done_fast)
        then none
        else some (task_text done_fast)))
purge_removes_example =
    purge_removes backend delete refl delete-LawfulDelete delete_works jobs done_one.1
      (encode fast_queue_key) (task_text done_fast) (scan_works _ done_one.1) done_is_there.0
      done_is_there.1
