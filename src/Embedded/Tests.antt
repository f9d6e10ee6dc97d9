-- ===== src/Embedded/Tests.antt =====
-- The theorems on transactions, on an engine that counts its calls.
use sochdb_go.Prelude.{ℕ, suc, ◌≡◌, refl, true, false}
use sochdb_go.Prelude.Result.{Result, err}
use sochdb_go.Prelude.Bytes.{Bytes, codes}
use sochdb_go.Prelude.{some, none, ◌⊎◌}
use sochdb_go.Embedded.Scan.{
  ScanEngine, end_code, ScanError, not_active, ScanIterator, txn_scan_prefix, next, close,
}
use sochdb_go.Embedded.Reads.{iterator_stops}
use sochdb_go.Embedded.{
  committed_code, not_found_code, Engine, TxnError, Transaction, begin, txn_put, txn_get,
  txn_delete, txn_put_path, txn_get_path, commit, abort, with_transaction,
}
use sochdb_go.Embedded.Ends.{Ended, Told, with_transaction_ends, Ended-refused}

-- Its state is the number of commits and aborts.
abbrev counter : Engine ℕ ℕ
counter = record {
  begin_txn = λ d. (d, d);
  engine_put = λ h key value d. (true, d);
  engine_get = λ h key d. (not_found_code, d);
  engine_delete = λ h key d. (true, d);
  engine_put_path = λ h path value d. (true, d);
  engine_get_path = λ h path d. (not_found_code, d);
  engine_commit = λ h d. (committed_code, suc d);
  engine_abort = λ h d. suc d;
}

abbrev put_one : Transaction ℕ → ℕ → Result TxnError (Unit {0}) × Transaction ℕ × ℕ
put_one txn d = ((txn_put counter (codes "k") (codes "v") txn d).0, txn, d)

with_transaction_ends_example :
    Ended (with_transaction counter put_one 0).1
    × ((put_one (begin counter 0).0 (begin counter 0).1).1.committed ≡ false
        → (put_one (begin counter 0).0 (begin counter 0).1).1.aborted ≡ false
        → Told counter
            (put_one (begin counter 0).0 (begin counter 0).1).0
            (put_one (begin counter 0).0 (begin counter 0).1).1
            (put_one (begin counter 0).0 (begin counter 0).1).2
            (with_transaction counter put_one 0).0
            (with_transaction counter put_one 0).2)
with_transaction_ends_example = with_transaction_ends counter put_one 0

abbrev committed_txn : Transaction ℕ
committed_txn = record { handle = 4; committed = true; aborted = false }

Ended-refused_example :
    (e : TxnError) × ((key value : Bytes) → txn_put counter key value committed_txn 1 ≡ (err e, 1))
    × ((key : Bytes) → txn_get counter key committed_txn 1 ≡ (err e, 1))
    × ((key : Bytes) → txn_delete counter key committed_txn 1 ≡ (err e, 1))
    × ((path value : Bytes) → txn_put_path counter path value committed_txn 1 ≡ (err e, 1))
    × ((path : Bytes) → txn_get_path counter path committed_txn 1 ≡ (err e, 1))
    × (commit counter committed_txn 1 ≡ (err e, committed_txn, 1))
    × (abort counter committed_txn 1 ≡ (committed_txn, 1))
Ended-refused_example = Ended-refused counter committed_txn 1 refl

-- Its scans have no entries.
abbrev empty_scans : ScanEngine ℕ ℕ ℕ
empty_scans = record {
  engine_scan = λ h prefix d. (some h, d);
  engine_next = λ i d. (end_code, d);
  engine_free = λ i d. d;
}

abbrev open_scan : ScanIterator ℕ
open_scan = record { iter = some 4; error = none }

iterator_stops_test :
    ((next empty_scans open_scan 1).0 ≡ none
      → (next empty_scans open_scan 1).1.error ≡ none
      → (open_scan.iter ≡ none)
        ⊎ ((p : ℕ) × (d' : ℕ) × (open_scan.iter ≡ some p)
            × (empty_scans.engine_next p 1 ≡ (end_code, d'))))
    × ((e : ScanError)
        → open_scan.error ≡ some e
        → next empty_scans open_scan 1 ≡ (none, open_scan, 1))
    × ((d' : ℕ)
        → next empty_scans (close empty_scans open_scan 1).0 d'
          ≡ (none, (close empty_scans open_scan 1).0, d'))
    × ((d' : ℕ)
        → close empty_scans (close empty_scans open_scan 1).0 d'
          ≡ ((close empty_scans open_scan 1).0, d'))
    × ((prefix : Bytes) (txn : Transaction ℕ)
        → Ended txn
        → (e : TxnError) × (txn_scan_prefix empty_scans prefix txn 1
            ≡ (record { iter = none; error = some (not_active e) }, 1)))
iterator_stops_test = iterator_stops empty_scans open_scan 1
