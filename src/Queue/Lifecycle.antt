-- ===== src/Queue/Lifecycle.antt =====
-- Ack and Nack.
use sochdb_go.Prelude.{
  ℕ, ◌≡◌, refl, sym, ◌∙◌, ap, ◌+◌, ◌<◌, ◌≤◌, ◌⊎◌, [], true, Option, none, some, arith, Option-cases,
  Bool-cases, inl, inr, if◌then◌else◌, leb,
}
use sochdb_go.Prelude.Int.{ℤ}
use sochdb_go.Prelude.Result.{Result, ok, err}
use sochdb_go.Prelude.Bytes.{Bytes, codes}
use sochdb_go.Store.{Db}
use sochdb_go.Queue.Task.{
  Task, TaskState, pending, claimed, completed, dead_lettered, is_claimed, IsKnown, Json,
  LawfulJson, PriorityQueue, QueueError, task_not_found, task_not_claimed,
}
use sochdb_go.Queue.Ops.Scan.{has_task_id, first_match}
use sochdb_go.Queue.Ops.{ack, nack, complete_task, retry_task, store_and_count}
use sochdb_go.Queue.Backend.{Backend}
use sochdb_go.Queue.Matching.{first_match_found, has_task_id_inv}
use sochdb_go.Queue.Update.{
  found, get_task_lem, Updated, Unchanged, store_and_count-Updated, store_and_count_err,
  store_and_count_ok,
}

is_claimed→eq : (state : TaskState) → is_claimed state ≡ true → state ≡ claimed
is_claimed→eq state h = ground arith

retry_task-task_id : {Meta : Type 0} (n : ℕ) (t : Task Meta) → (retry_task n t).task_id ≡ t.task_id
retry_task-task_id n t = ground arith

retry_task-metadata :
    {Meta : Type 0} (n : ℕ) (t : Task Meta) → (retry_task n t).metadata ≡ t.metadata
retry_task-metadata n t = ground arith

retry_task-is_text :
    {Meta Blob : Type 0} {json : Json Meta Blob}
    → (law : LawfulJson json) (n : ℕ) (t : Task Meta) → law.is_text t.claimed_by ≡ true
    → law.is_text (retry_task n t).claimed_by ≡ true
retry_task-is_text law n t text = elim (Bool-cases (leb n (t.retries + 1))) [
  | inl e ↦ rw e text
  | inr e ↦ rw e law.is_text_empty
]

retry_task-IsKnown : {Meta : Type 0} (n : ℕ) (t : Task Meta) → IsKnown (retry_task n t).state
retry_task-IsKnown n t = elim (Bool-cases (leb n (t.retries + 1))) [
  | inl e ↦ rw e tt
  | inr e ↦ rw e tt
]

module _ {S Meta Blob : Type 0} {db : Db S Blob} {json : Json Meta Blob} (b : Backend db json) where
  module _ (task_id : Bytes) (pq : PriorityQueue) (s : S) where
    found_task_id :
        (key : Bytes) (task : Task Meta)
        → found b task_id pq s ≡ some (key, task)
        → task.task_id ≡ task_id
    found_task_id key task e =
        let (value, member, passed) = first_match_found (has_task_id json task_id) _ key task e in
        (has_task_id_inv json task_id key value task passed).1

    stored_under :
        (key : Bytes) (task : Task Meta)
        → found b task_id pq s ≡ some (key, task)
        → found b task.task_id pq s ≡ some (key, task)
    stored_under key task e = ap (λ id. found b id pq s) (found_task_id key task e) ∙ e

    retried_under :
        (key : Bytes) (task : Task Meta)
        → found b task_id pq s ≡ some (key, task)
        → found b (retry_task pq.config.max_retries task).task_id pq s ≡ some (key, task)
    retried_under key task e =
        rw (retry_task-task_id pq.config.max_retries task) (stored_under key task e)

    abbrev nack_found : Option (Bytes × Task Meta) → Result QueueError (Unit {0}) × S
    nack_found none = (err (task_not_found task_id), s)
    nack_found (some (key, task)) =
        store_and_count db json (retry_task pq.config.max_retries task) (codes "claimed")
          (if leb pq.config.max_retries (task.retries + 1)
            then codes "deadLettered"
            else codes "pending")
          pq s

    nack_lem : nack db json task_id pq s ≡ nack_found (found b task_id pq s)
    unfolding nack first_match
    nack_lem =
        rw (get_task_lem b task_id pq s, nack)
          (elim (Option-cases (found b task_id pq s)) [ inl e ↦ rw e | inr (x, e) ↦ rw e ])

    module _ (now : ℤ) where
      abbrev ack_found : Option (Bytes × Task Meta) → Result QueueError (Unit {0}) × S
      ack_found none = (err (task_not_found task_id), s)
      ack_found (some (key, task)) =
          if is_claimed task.state
          then store_and_count db json (complete_task now task) (codes "claimed")
              (codes "completed") pq s
          else (err (task_not_claimed task_id), s)

      ack_lem : ack db json task_id now pq s ≡ ack_found (found b task_id pq s)
      unfolding ack first_match
      ack_lem =
          rw (get_task_lem b task_id pq s, ack)
            (elim (Option-cases (found b task_id pq s)) [ inl e ↦ rw e | inr (x, e) ↦ rw e ])

      -- If Ack succeeds, the task with this id was claimed; it is stored with the state completed,
      -- completed at the time given, and its other fields as they were, and no other entry of the
      -- queue changes.
      pub ack_completes :
          (ack db json task_id now pq s).0 ≡ ok tt
          → (old : Task Meta) × (old.task_id ≡ task_id)
            × (old.state ≡ claimed)
            × Updated b pq s old
                (record old { state = completed; completed_at = some now })
                (ack db json task_id now pq s).1
      ack_completes h = rw ack_lem (go (found b task_id pq s) refl (ap first ack_lem' ∙ h))
        where
          first : Result QueueError (Unit {0}) × S → Result QueueError (Unit {0})
          first p = p.0

          ack_lem' : ack_found (found b task_id pq s) ≡ ack db json task_id now pq s
          ack_lem' = sym ack_lem

          go :
              (o : Option (Bytes × Task Meta))
              → found b task_id pq s ≡ o
              → (ack_found o).0 ≡ ok tt
              → (old : Task Meta) × (old.task_id ≡ task_id)
                × (old.state ≡ claimed)
                × Updated b pq s old
                    (record old { state = completed; completed_at = some now })
                    (ack_found o).1
          go none e k = cc
          go (some (key, old)) e k = elim (Bool-cases (is_claimed old.state)) [
            | inr f ↦ cc (rw f at k)
            | inl f ↦ rw f (
              old,
              found_task_id key old e,
              is_claimed→eq old.state f,
              store_and_count-Updated b pq s key old (complete_task now old) (codes "claimed")
                  (codes "completed") (stored_under key old e) refl (λ text. text) tt (rw f at k),
            )
          ]

      -- If Ack fails, the entries of the queue are as before.
      pub ack_err :
          (e : QueueError)
          → (ack db json task_id now pq s).0 ≡ err e
          → Unchanged b pq s (ack db json task_id now pq s).1
      ack_err e h = rw ack_lem (
          go (found b task_id pq s) refl
            (ap (λ (p : Result QueueError (Unit {0}) × S). p.0) (sym ack_lem) ∙ h))
        where
          go :
              (o : Option (Bytes × Task Meta))
              → found b task_id pq s ≡ o
              → (ack_found o).0 ≡ err e
              → Unchanged b pq s (ack_found o).1
          go none f k = λ j q. refl
          go (some (key, old)) f k = elim (Bool-cases (is_claimed old.state)) [
            | inr c ↦ rw c (λ j q. refl)
            | inl c ↦ rw c (
                store_and_count_err b pq s key old (complete_task now old) (codes "claimed")
                  (codes "completed") (stored_under key old f) e (rw c at k))
          ]

    -- What Nack stores in place of the task: one more retry, and the other state.
    abbrev pub Retried : Task Meta → S → Type 0
    Retried old s' =
        ((pq.config.max_retries ≤ old.retries + 1)
          × Updated b pq s old (record old { state = dead_lettered; retries = old.retries + 1 }) s')
        ⊎ ((old.retries + 1 < pq.config.max_retries)
            × Updated b pq s old
                (record old {
                  state = pending;
                  claimed_at = none;
                  claimed_by = [];
                  retries = old.retries + 1;
                })
                s')

    retry_task-Retried :
        (old : Task Meta) (s' : S)
        → Updated b pq s old (retry_task pq.config.max_retries old) s'
        → Retried old s'
    retry_task-Retried old s' u = elim (Bool-cases (leb pq.config.max_retries (old.retries + 1))) [
      | inl e ↦ inl (ground arith, rw e at u)
      | inr e ↦ inr (ground arith, rw e at u)
    ]

    -- If Nack succeeds, the task with this id is stored with one more retry: with the state
    -- dead-lettered if the retries reach the maximum, and else pending with no claim; its other
    -- fields are as they were. No other entry of the queue changes.
    pub nack_retries :
        (nack db json task_id pq s).0 ≡ ok tt
        → (old : Task Meta) × (old.task_id ≡ task_id) × Retried old (nack db json task_id pq s).1
    nack_retries h = rw nack_lem (
        go (found b task_id pq s) refl
          (ap (λ (p : Result QueueError (Unit {0}) × S). p.0) (sym nack_lem) ∙ h))
      where
        go :
            (o : Option (Bytes × Task Meta))
            → found b task_id pq s ≡ o
            → (nack_found o).0 ≡ ok tt
            → (old : Task Meta) × (old.task_id ≡ task_id) × Retried old (nack_found o).1
        go none e k = cc
        go (some (key, old)) e k = (
          old,
          found_task_id key old e,
          retry_task-Retried old _ (
              store_and_count-Updated b pq s key old (retry_task pq.config.max_retries old) _ _
                (retried_under key old e) (retry_task-metadata pq.config.max_retries old)
                (retry_task-is_text b.json_lawful pq.config.max_retries old)
                (retry_task-IsKnown pq.config.max_retries old) k),
        )

    -- If Nack fails, the entries of the queue are as before.
    pub nack_err :
        (e : QueueError)
        → (nack db json task_id pq s).0 ≡ err e
        → Unchanged b pq s (nack db json task_id pq s).1
    nack_err e h = rw nack_lem (
        go (found b task_id pq s) refl
          (ap (λ (p : Result QueueError (Unit {0}) × S). p.0) (sym nack_lem) ∙ h))
      where
        go :
            (o : Option (Bytes × Task Meta))
            → found b task_id pq s ≡ o
            → (nack_found o).0 ≡ err e
            → Unchanged b pq s (nack_found o).1
        go none f k = λ j q. refl
        go (some (key, old)) f k =
            store_and_count_err b pq s key old (retry_task pq.config.max_retries old) _ _
              (retried_under key old f) e k

    -- Nack looks at no state: where the task with this id is completed, has retries left, and
    -- writes succeed, Nack makes it pending again.
    pub nack_reopens :
        (key : Bytes) (old : Task Meta)
        → found b task_id pq s ≡ some (key, old)
        → old.state ≡ completed
        → old.retries + 1 < pq.config.max_retries
        → ((k : Bytes) (v : Blob) (u : S) → (b.put k v u).1 ≡ true)
        → ((nack db json task_id pq s).0 ≡ ok tt)
          × ((retry_task pq.config.max_retries old).state ≡ pending)
          × Updated b pq s old (retry_task pq.config.max_retries old) (nack db json task_id pq s).1
    nack_reopens key old e c l writes = (
      succeeds,
      ground arith,
      rw nack_lem (
          rw e (
            store_and_count-Updated b pq s key old (retry_task pq.config.max_retries old) _ _
              (retried_under key old e) (retry_task-metadata pq.config.max_retries old)
              (retry_task-is_text b.json_lawful pq.config.max_retries old)
              (retry_task-IsKnown pq.config.max_retries old)
              (store_and_count_ok b pq s key old (retry_task pq.config.max_retries old) _ _
                (retried_under key old e) writes))),
    )
      where
        succeeds : (nack db json task_id pq s).0 ≡ ok tt
        succeeds = rw nack_lem (
            rw e (
              store_and_count_ok b pq s key old (retry_task pq.config.max_retries old) _ _
                (retried_under key old e) writes))
