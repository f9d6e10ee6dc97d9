-- ===== src/Overlay/Laws.antt =====
-- What the server behind the requests documents, over a view of what it holds.
use sochdb_go.Prelude.{◌≡◌, Option, some, if◌then◌else◌}
use sochdb_go.Prelude.Result.{ok}
use sochdb_go.Prelude.Bytes.{Bytes}
use sochdb_go.Prelude.Bytes.Order.{bytes_eq}
use sochdb_go.Overlay.{Kv}

-- A value that Get returns is there, Get changes nothing, and a Put that returns no error writes one
-- key.
pub record LawfulKv {S E : Type 0} (kv : Kv S E) (view : S → Bytes → Option Bytes) : Type 0 where
  pub get-there : (k v : Bytes) (s : S) → (kv.kv_get k s).0 ≡ ok (some v) → view s k ≡ some v
  pub get-keeps : (k j : Bytes) (s : S) → view (kv.kv_get k s).1 j ≡ view s j
  pub put-writes :
      (k v j : Bytes) (s : S)
      → (kv.kv_put k v s).0 ≡ ok tt
      → view (kv.kv_put k v s).1 j ≡ (if bytes_eq k j then some v else view s j)
