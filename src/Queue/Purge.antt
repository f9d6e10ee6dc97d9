-- ===== src/Queue/Purge.antt =====
-- Purge.
use sochdb_go.Prelude.{
  ◌≡◌, refl, ◌∙◌, ap, List, [], ◌∷◌, Bool, true, false, Option, none, some, In, arith, Bool-cases,
  inl, inr, if◌then◌else◌, ◌||◌, length,
}
use sochdb_go.Prelude.Result.{ok}
use sochdb_go.Prelude.Bytes.{Bytes}
use sochdb_go.Prelude.Bytes.Order.{bytes_eq, bytes_eq_iff, ◌≺◌, ≺_irrefl}
use sochdb_go.Store.{Db, both}
use sochdb_go.Store.Laws.{Rising, LawfulDelete}
use sochdb_go.Queue.Task.{Json, PriorityQueue, queue_prefix}
use sochdb_go.Queue.Ops.Scan.{purgeable, keys_where, delete_all}
use sochdb_go.Queue.Ops.{purge}
use sochdb_go.Queue.Backend.{Backend, IsQueueKey}

abbrev pub holds : List Bytes → Bytes → Bool
holds [] j = false
holds (k ∷ keys) j = bytes_eq k j || holds keys j

module _ {A : Type 0} (p : Bytes × A → Bool) where
  holds-keys_where_absent :
      (l : List (Bytes × A)) (j : Bytes)
      → ((f : Bytes × A) → In f l → ◌≺◌ j f.0)
      → holds (keys_where p l) j ≡ false
  unfolding keys_where
  holds-keys_where_absent [] j low = refl
  holds-keys_where_absent ((k, w) ∷ rest) j low =
      ground (arith, holds-keys_where_absent rest j (λ f h. low f (inr h)), apart)
    where
      apart : bytes_eq k j ≡ false
      apart = elim (Bool-cases (bytes_eq k j)) [
        | inr e ↦ e
        | inl e ↦ absurd (≺_irrefl j (rw ((bytes_eq_iff k j).0 e) at (low (k, w) (inl refl))))
      ]

  -- In a list with rising keys, the key of an entry is collected exactly if the entry passes.
  pub holds-keys_where :
      (l : List (Bytes × A)) (j : Bytes) (v : A)
      → Rising l
      → In (j, v) l
      → holds (keys_where p l) j ≡ p (j, v)
  unfolding keys_where
  holds-keys_where [] j v r i = elim i [ ]
  holds-keys_where ((k, w) ∷ rest) j v (low, r) (inl e) = ground (
    arith,
    e,
    ap p e,
    bytes_eq_iff k j,
    holds-keys_where_absent rest j (λ f h. rw (ap (λ q. q.0) e) (low f h)),
  )
  holds-keys_where ((k, w) ∷ rest) j v (low, r) (inr i) =
      ground (arith, holds-keys_where rest j v r i, apart)
    where
      apart : bytes_eq k j ≡ false
      apart = elim (Bool-cases (bytes_eq k j)) [
        | inr e ↦ e
        | inl e ↦ absurd (≺_irrefl j (rw ((bytes_eq_iff k j).0 e) at (low (j, v) i)))
      ]

module _ {S Blob : Type 0} {view : S → Bytes → Option Blob} {delete : Bytes → S → S × Bool}
    (lawful : LawfulDelete view delete) (works : (k : Bytes) (s : S) → (delete k s).1 ≡ true) where
  pub view-delete_all :
      (keys : List Bytes) (s : S) (j : Bytes)
      → view (delete_all delete keys s).0 j ≡ (if holds keys j then none else view s j)
  unfolding delete_all
  view-delete_all [] s j = refl
  view-delete_all (k ∷ keys) s j =
      ground (arith, view-delete_all keys (delete k s).0 j, lawful.delete_done k s j (works k s))

  delete_all_count : (keys : List Bytes) (s : S) → (delete_all delete keys s).1 ≡ length keys
  unfolding delete_all
  delete_all_count [] s = refl
  delete_all_count (k ∷ keys) s = ground (arith, delete_all_count keys (delete k s).0, works k s)

module _ {S Meta Blob : Type 0} {db : Db S Blob} {json : Json Meta Blob} (b : Backend db json)
    (delete : Bytes → S → S × Bool) (has_delete : db.delete ≡ some delete)
    (lawful : LawfulDelete b.view delete) (works : (k : Bytes) (s : S) → (delete k s).1 ≡ true)
    (pq : PriorityQueue) (s : S) where
  abbrev doomed : List Bytes
  doomed = keys_where (purgeable json) (b.scan (queue_prefix pq) s).0

  purge_lem :
      purge db json pq s ≡ (ok (delete_all delete doomed s).1, (delete_all delete doomed s).0)
  unfolding purge
  purge_lem = rw (both_methods, purge)
    where
      both_methods : both db.scan_prefix db.delete ≡ some (b.scan, delete)
      both_methods = rw (b.scan_is, has_delete)

  -- Where deletes work and the scan ends with no error, Purge returns the number of entries it
  -- collected; an entry of the queue is gone if it was completed or dead-lettered, and is as it
  -- was otherwise.
  pub purge_removes :
      (j : Bytes) (v : Blob)
      → (b.scan (queue_prefix pq) s).1 ≡ true
      → IsQueueKey pq j
      → b.view s j ≡ some v
      → ((purge db json pq s).0 ≡ ok (length doomed))
        × (b.view (purge db json pq s).1 j ≡ (if purgeable json (j, v) then none else some v))
  purge_removes j v fine q there = rw purge_lem (
    ap ok (delete_all_count lawful works doomed s),
    view-delete_all lawful works doomed s j
        ∙ rw
            (holds-keys_where (purgeable json) (b.scan (queue_prefix pq) s).0 j v
              (b.scan_lawful.scan_rising (queue_prefix pq) s)
              (b.scan_lawful.scan_complete (queue_prefix pq) s j v fine q there))
            (rw there refl),
  )
