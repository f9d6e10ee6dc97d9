-- ===== src/Store/Laws.antt =====
-- What a key-value database documents, over a view of what it holds.
use sochdb_go.Prelude.{Bool, true, false, Option, none, some, List, [], ◌∷◌, ◌≡◌, In, if◌then◌else◌}
use sochdb_go.Prelude.Bytes.{Bytes}
use sochdb_go.Prelude.Bytes.Order.{bytes_eq, ◌≺◌}
use sochdb_go.Prelude.Bytes.Prefix.{has_prefix}

-- The keys of the entries rise.
abbrev pub Rising : {Blob : Type 0} → List (Bytes × Blob) → Type 0
Rising [] = Unit {0}
Rising (e ∷ rest) = ((f : Bytes × _) → In f rest → ◌≺◌ e.0 f.0) × Rising rest

-- A put that succeeds writes one key, and one that fails writes nothing.
pub record LawfulPut {S Blob : Type 0} (view : S → Bytes → Option Blob)
    (put : Bytes → Blob → S → S × Bool) : Type 0 where
  pub put_done :
      (k : Bytes) (v : Blob) (s : S) (j : Bytes)
      → (put k v s).1 ≡ true
      → view (put k v s).0 j ≡ (if bytes_eq k j then some v else view s j)
  pub put_failed :
      (k : Bytes) (v : Blob) (s : S) (j : Bytes)
      → (put k v s).1 ≡ false
      → view (put k v s).0 j ≡ view s j

pub record LawfulDelete {S Blob : Type 0} (view : S → Bytes → Option Blob)
    (delete : Bytes → S → S × Bool) : Type 0 where
  pub delete_done :
      (k : Bytes) (s : S) (j : Bytes)
      → (delete k s).1 ≡ true
      → view (delete k s).0 j ≡ (if bytes_eq k j then none else view s j)
  pub delete_failed :
      (k : Bytes) (s : S) (j : Bytes) → (delete k s).1 ≡ false → view (delete k s).0 j ≡ view s j

-- A scan gives entries that are there and have the prefix, in the order of their keys, and all of
-- them if it ends with no error.
pub record LawfulScan {S Blob : Type 0} (view : S → Bytes → Option Blob)
    (scan : Bytes → S → List (Bytes × Blob) × Bool) : Type 0 where
  pub scan_sound :
      (p : Bytes) (s : S) (k : Bytes) (v : Blob)
      → In (k, v) (scan p s).0
      → (has_prefix p k ≡ true) × (view s k ≡ some v)
  pub scan_complete :
      (p : Bytes) (s : S) (k : Bytes) (v : Blob)
      → (scan p s).1 ≡ true
      → has_prefix p k ≡ true
      → view s k ≡ some v
      → In (k, v) (scan p s).0
  pub scan_rising : (p : Bytes) (s : S) → Rising (scan p s).0
