-- ===== src/Store.antt =====
-- The database behind the queue and the collections. The Go code holds it as `interface{}` and asks
-- at run time which methods it has; the databases themselves (the server, the Rust engine) are not
-- part of this library. So a database is a parameter: the methods that the type assertions find.
pub mod Laws
pub mod Memory
use sochdb_go.Prelude.{Bool, Option, none, some, List}
use sochdb_go.Prelude.Bytes.{Bytes}

-- `S` is what the database holds and `Blob` the type of stored values. A method that writes returns
-- the database after the call and whether its error is nil.
pub record Db (S Blob : Type 0) : Type 0 where
  -- Put(key, value []byte) error
  pub put : Option (Bytes → Blob → S → S × Bool)
  -- Get(key []byte) ([]byte, error): none for an error, some none for nil
  pub get : Option (Bytes → S → Option (Option Blob))
  -- Delete(key []byte) error
  pub delete : Option (Bytes → S → S × Bool)
  -- ScanPrefix(prefix []byte) ScanIteratorInterface: the entries that Next gives until it answers
  -- false, and whether Err is nil then
  pub scan_prefix : Option (Bytes → S → List (Bytes × Blob) × Bool)
  -- Scan(prefix string) ([]KeyValue, error): none for an error
  pub scan : Option (Bytes → S → Option (List (Bytes × Blob)))

-- A type assertion that asks for two methods.
abbrev pub both {ℓ κ} : {A : Type ℓ} {B : Type κ} → Option A → Option B → Option (A × B)
both (some a) (some b) = some (a, b)
both (some a) none = none
both none b = none
