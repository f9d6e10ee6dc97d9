-- ===== src/Store/Memory.antt =====
-- A database in memory: a list of entries with rising keys. It shows that the laws can hold.
use sochdb_go.Prelude.{
  Ordering, ◌≡◌, refl, List, [], ◌∷◌, Bool, true, Option, none, some, In, ◌⊎◌, inl, inr,
  if◌then◌else◌, arith, Bool-cases,
}
use sochdb_go.Prelude.Bytes.{Bytes}
use sochdb_go.Prelude.Bytes.Order.{
  bytes_eq, bytes_eq_iff, cmp_bytes, cmp_bytes-eq_iff, ◌≺◌, ≺_trans, ≺_of_gt,
}
use sochdb_go.Prelude.Bytes.Prefix.{has_prefix}
use sochdb_go.Store.{Db}
use sochdb_go.Store.Laws.{Rising, LawfulPut, LawfulDelete, LawfulScan}

abbrev pub Entries : Type 0 → Type 0
Entries Blob = List (Bytes × Blob)

module _ {Blob : Type 0} where
  unfoldable pub view : Entries Blob → Bytes → Option Blob
  view [] j = none
  view ((k, v) ∷ rest) j = if bytes_eq k j then some v else view rest j

  unfoldable pub insert : Bytes → Blob → Entries Blob → Entries Blob
  insert k v [] = (k, v) ∷ []
  insert k v ((j, w) ∷ rest) =
      let later = insert k v rest in
      elim (cmp_bytes k j) [
        | Ordering.lt ↦ (k, v) ∷ (j, w) ∷ rest
        | Ordering.eq ↦ (k, v) ∷ rest
        | Ordering.gt ↦ (j, w) ∷ later
      ]

  unfoldable pub remove : Bytes → Entries Blob → Entries Blob
  remove k [] = []
  remove k ((j, w) ∷ rest) =
      let later = remove k rest in if bytes_eq j k then later else (j, w) ∷ later

  unfoldable pub matching : Bytes → Entries Blob → Entries Blob
  matching p [] = []
  matching p ((j, w) ∷ rest) =
      let later = matching p rest in if has_prefix p j then (j, w) ∷ later else later

  In-insert :
      (k : Bytes) (v : Blob) (l : Entries Blob) (f : Bytes × Blob)
      → In f (insert k v l)
      → (f ≡ (k, v)) ⊎ In f l
  unfolding insert
  In-insert k v [] f h = ground arith
  In-insert k v ((j, w) ∷ rest) f h = ground (arith, In-insert k v rest f)

  pub insert-Rising : (k : Bytes) (v : Blob) (l : Entries Blob) → Rising l → Rising (insert k v l)
  insert-Rising k v [] r = unfold insert in ((λ f h. absurd h), tt)
  insert-Rising k v ((j, w) ∷ rest) (low, r) = go (cmp_bytes k j) refl (insert-Rising k v rest r)
    where
      above : ◌≺◌ k j → (f : Bytes × Blob) → In f ((j, w) ∷ rest) → ◌≺◌ k f.0
      above c f (inl e) = rw e c
      above c f (inr h) = ≺_trans k j f.0 c (low f h)

      behind : ◌≺◌ j k → (f : Bytes × Blob) → (f ≡ (k, v)) ⊎ In f rest → ◌≺◌ j f.0
      behind c f (inl e) = rw e c
      behind c f (inr h) = low f h

      go :
          (o : Ordering)
          → cmp_bytes k j ≡ o
          → Rising (insert k v rest)
          → Rising (insert k v ((j, w) ∷ rest))
      go Ordering.lt e i = unfold insert in rw (e, Rising) (above e, (low, r))
      go Ordering.eq e i =
          unfold insert in rw (e, Rising) ((λ f h. rw ((cmp_bytes-eq_iff k j).0 e) (low f h)), r)
      go Ordering.gt e i =
          unfold insert in
          rw (e, Rising) ((λ f h. behind (≺_of_gt k j e) f (In-insert k v rest f h)), i)

  pub view-insert :
      (k : Bytes) (v : Blob) (l : Entries Blob) (j : Bytes)
      → view (insert k v l) j ≡ (if bytes_eq k j then some v else view l j)
  unfolding view insert
  view-insert k v [] j = refl
  view-insert k v ((i, w) ∷ rest) j =
      ground
        (arith, view-insert k v rest j, bytes_eq_iff k j, bytes_eq_iff i j, cmp_bytes-eq_iff k i)

  In-remove : (k : Bytes) (l : Entries Blob) (f : Bytes × Blob) → In f (remove k l) → In f l
  unfolding remove
  In-remove k [] f h = h
  In-remove k ((j, w) ∷ rest) f h = ground (arith, In-remove k rest f)

  pub remove-Rising : (k : Bytes) (l : Entries Blob) → Rising l → Rising (remove k l)
  unfolding remove
  remove-Rising k [] r = tt
  remove-Rising k ((j, w) ∷ rest) (low, r) = elim (Bool-cases (bytes_eq j k)) [
    | inl e ↦ rw e (remove-Rising k rest r)
    | inr e ↦ rw e ((λ f h. low f (In-remove k rest f h)), remove-Rising k rest r)
  ]

  view-remove :
      (k : Bytes) (l : Entries Blob) (j : Bytes)
      → view (remove k l) j ≡ (if bytes_eq k j then none else view l j)
  unfolding view remove
  view-remove k [] j = ground arith
  view-remove k ((i, w) ∷ rest) j =
      ground (arith, view-remove k rest j, bytes_eq_iff k j, bytes_eq_iff i j, bytes_eq_iff i k)

  view→In : (l : Entries Blob) (k : Bytes) (v : Blob) → view l k ≡ some v → In (k, v) l
  unfolding view
  view→In [] k v h = cc
  view→In ((j, w) ∷ rest) k v h = ground (arith, view→In rest k v, bytes_eq_iff j k)

  In→view : (l : Entries Blob) (k : Bytes) (v : Blob) → Rising l → In (k, v) l → view l k ≡ some v
  unfolding view
  In→view [] k v r h = elim h [ ]
  In→view ((j, w) ∷ rest) k v (low, r) (inl e) = ground (arith, bytes_eq_iff j k)
  In→view ((j, w) ∷ rest) k v (low, r) (inr h) =
      ground (arith, low (k, v) h, bytes_eq_iff j k, cmp_bytes-eq_iff j k, In→view rest k v r h)

  In-matching :
      (p : Bytes) (l : Entries Blob) (f : Bytes × Blob)
      → In f (matching p l)
      → (has_prefix p f.0 ≡ true) × In f l
  unfolding matching
  In-matching p [] f h = elim h [ ]
  In-matching p ((j, w) ∷ rest) f h = ground (arith, In-matching p rest f)

  matching-In :
      (p : Bytes) (l : Entries Blob) (f : Bytes × Blob)
      → has_prefix p f.0 ≡ true
      → In f l
      → In f (matching p l)
  unfolding matching
  matching-In p [] f e h = h
  matching-In p ((j, w) ∷ rest) f e h = ground (arith, matching-In p rest f)

  matching-Rising : (p : Bytes) (l : Entries Blob) → Rising l → Rising (matching p l)
  unfolding matching
  matching-Rising p [] r = tt
  matching-Rising p ((j, w) ∷ rest) (low, r) = elim (Bool-cases (has_prefix p j)) [
    | inl e ↦ rw e ((λ f h. low f (In-matching p rest f h).1), matching-Rising p rest r)
    | inr e ↦ rw e (matching-Rising p rest r)
  ]

-- What is stored, and that its keys rise.
abbrev pub Memory : Type 0 → Type 0
Memory Blob = (l : Entries Blob) × Rising l

module _ {Blob : Type 0} where
  abbrev pub view_of : Memory Blob → Bytes → Option Blob
  view_of s = view s.0

  unfoldable pub put : Bytes → Blob → Memory Blob → Memory Blob × Bool
  put k v (l, r) = ((insert k v l, insert-Rising k v l r), true)

  unfoldable pub get : Bytes → Memory Blob → Option (Option Blob)
  get k (l, r) = some (view l k)

  unfoldable pub delete : Bytes → Memory Blob → Memory Blob × Bool
  delete k (l, r) = ((remove k l, remove-Rising k l r), true)

  unfoldable pub scan_prefix : Bytes → Memory Blob → List (Bytes × Blob) × Bool
  scan_prefix p (l, r) = (matching p l, true)

  pub put-LawfulPut : LawfulPut view_of put
  unfolding put
  put-LawfulPut = record {
    put_done = λ k v s j h. view-insert k v s.0 j;
    put_failed = λ k v s j h. cc;
  }

  pub delete-LawfulDelete : LawfulDelete view_of delete
  unfolding delete
  delete-LawfulDelete = record {
    delete_done = λ k s j h. view-remove k s.0 j;
    delete_failed = λ k s j h. cc;
  }

  pub scan_prefix-LawfulScan : LawfulScan view_of scan_prefix
  unfolding scan_prefix
  scan_prefix-LawfulScan = record {
    scan_sound = λ p s k v h. let (e, i) = In-matching p s.0 (k, v) h in (e, In→view s.0 k v s.1 i);
    scan_complete = λ p s k v fine e h. matching-In p s.0 (k, v) e (view→In s.0 k v h);
    scan_rising = λ p s. matching-Rising p s.0 s.1;
  }

  -- A database with an interface that the queue accepts.
  abbrev pub memory_db : Db (Memory Blob) Blob
  memory_db = record {
    put = some put;
    get = some get;
    delete = some delete;
    scan_prefix = some scan_prefix;
    scan = none;
  }
