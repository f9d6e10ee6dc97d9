-- ===== src/Queue/Matching.antt =====
-- The loops that end at the first entry that passes.
use sochdb_go.Prelude.{
  ◌≡◌, ap, ◌∙◌, ◌≢◌, List, [], ◌∷◌, true, Option, none, some, In, ◌⊎◌, inl, inr, arith,
  Option-cases,
}
use sochdb_go.Prelude.Int.{ℤ}
use sochdb_go.Prelude.Bytes.{Bytes}
use sochdb_go.Prelude.Bytes.Order.{◌≺◌, bytes_eq_iff}
use sochdb_go.Store.Laws.{Rising}
use sochdb_go.Queue.Key.{decode_queue_key}
use sochdb_go.Queue.Task.{Task, pending, Json}
use sochdb_go.Queue.Ops.Scan.{first_match, claimable, has_task_id, due}

module _ {A B : Type 0} (f : Bytes × A → Option B) where
  pub first_match_found :
      (l : List (Bytes × A)) (k : Bytes) (x : B)
      → first_match f l ≡ some (k, x)
      → (v : A) × In (k, v) l × (f (k, v) ≡ some x)
  unfolding first_match
  first_match_found [] k x h = cc
  first_match_found ((j, w) ∷ rest) k x h = elim (Option-cases (f (j, w))) [
    | inl e ↦ let (v, i, p) = first_match_found rest k x (rw (e, first_match) at h) in (v, inr i, p)
    | inr (y, e) ↦ (w, inl (ground (arith, e)), ground (arith, e))
  ]

  pub first_match-none :
      (l : List (Bytes × A))
      → first_match f l ≡ none
      → (k : Bytes) (v : A) → In (k, v) l
      → f (k, v) ≡ none
  unfolding first_match
  first_match-none [] h k v i = elim i [ ]
  first_match-none ((j, w) ∷ rest) h k v i = elim (Option-cases (f (j, w))) [
    | inl e ↦ skipped e i (first_match-none rest (rw (e, first_match) at h) k v)
    | inr (y, e) ↦ cc (rw (e, first_match) at h)
  ]
    where
      skipped :
          f (j, w) ≡ none
          → In (k, v) ((j, w) ∷ rest)
          → (In (k, v) rest → f (k, v) ≡ none)
          → f (k, v) ≡ none
      skipped e (inl s) later = ap f s ∙ e
      skipped e (inr i) later = later i

  -- Every other entry that passes has a greater key.
  pub first_match_least :
      (l : List (Bytes × A)) (k : Bytes) (x : B)
      → Rising l
      → first_match f l ≡ some (k, x)
      → (j : Bytes) (v : A) → In (j, v) l
      → f (j, v) ≢ none
      → (j ≡ k) ⊎ ◌≺◌ k j
  unfolding first_match
  first_match_least [] k x r h j v i p = elim i [ ]
  first_match_least ((i0, w) ∷ rest) k x (low, r) h j v i p = elim (Option-cases (f (i0, w))) [
    | inl e ↦ skipped e i (first_match_least rest k x r (rw (e, first_match) at h) j v)
    | inr (y, e) ↦ taken (ground (arith, rw (e, first_match) at h)) i
  ]
    where
      skipped :
          f (i0, w) ≡ none
          → In (j, v) ((i0, w) ∷ rest)
          → (In (j, v) rest → f (j, v) ≢ none → (j ≡ k) ⊎ ◌≺◌ k j)
          → (j ≡ k) ⊎ ◌≺◌ k j
      skipped e (inl s) later = absurd (p (ap f s ∙ e))
      skipped e (inr i) later = later i p

      taken : i0 ≡ k → In (j, v) ((i0, w) ∷ rest) → (j ≡ k) ⊎ ◌≺◌ k j
      taken e (inl s) = inl (ap (λ q. q.0) s ∙ e)
      taken e (inr i) = inr (rw (← e) (low (j, v) i))

module _ {Meta Blob : Type 0} (json : Json Meta Blob) where
  -- What an entry is that Dequeue may claim: its value is a pending task, and its key tells a time
  -- that has come.
  pub claimable_inv :
      (now : ℤ) (k : Bytes) (v : Blob) (t : Task Meta)
      → claimable json now (k, v) ≡ some t
      → (json.unmarshal_task v ≡ some t)
        × (t.state ≡ pending)
        × (due now (decode_queue_key k) ≡ true)
  unfolding claimable
  claimable_inv now k v t h = ground arith

  pub has_task_id_inv :
      (id k : Bytes) (v : Blob) (t : Task Meta)
      → has_task_id json id (k, v) ≡ some t
      → (json.unmarshal_task v ≡ some t) × (t.task_id ≡ id)
  unfolding has_task_id
  has_task_id_inv id k v t h = elim (Option-cases (json.unmarshal_task v)) [
    | inl e ↦ cc (rw (e, has_task_id) at h)
    | inr (u, e) ↦ ground (arith, rw (e, has_task_id) at h, bytes_eq_iff u.task_id id)
  ]
