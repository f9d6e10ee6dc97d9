-- ===== src/Embedded/Scan.antt =====
-- The scans of embedded/database.go, over the C functions on an iterator `I`.
use sochdb_go.Prelude.{Option, none, some}
use sochdb_go.Prelude.Result.{Result, ok, err}
use sochdb_go.Prelude.Bytes.{Bytes}
use sochdb_go.Embedded.{Engine, TxnError, Transaction, ensure_active, begin}

-- What sochdb_scan_next returns: 0 with a key and its value, 1, or another code.
pub data NextCode : Type 0 where
  next_entry : Bytes → Bytes → NextCode
  end_code failed_next : NextCode

-- sochdb_scan_prefix returns a pointer or nil.
pub record ScanEngine (D H I : Type 0) : Type 0 where
  pub engine_scan : H → Bytes → D → Option I × D
  pub engine_next : I → D → NextCode × D
  pub engine_free : I → D → D

pub data ScanError : Type 0 where
  not_active : TxnError → ScanError
  scan_failed next_failed : ScanError

pub record ScanIterator (I : Type 0) : Type 0 where
  pub iter : Option I
  pub error : Option ScanError

abbrev pub scan_result : {D I : Type 0} → Option I × D → ScanIterator I × D
scan_result (none, d) = (record { iter = none; error = some scan_failed }, d)
scan_result (some i, d) = (record { iter = some i; error = none }, d)

abbrev pub next_result :
    {D I : Type 0} → ScanIterator I → NextCode × D → Option (Bytes × Bytes) × ScanIterator I × D
next_result it (next_entry key value, d) = (some (key, value), it, d)
next_result it (end_code, d) = (none, it, d)
next_result it (failed_next, d) = (none, record it { error = some next_failed }, d)

module _ {D H I : Type 0} (scans : ScanEngine D H I) where
  unfoldable pub scan_active :
      Result TxnError (Unit {0}) → Bytes → Transaction H → D → ScanIterator I × D
  scan_active (err e) prefix txn d = (record { iter = none; error = some (not_active e) }, d)
  scan_active (ok _) prefix txn d = scan_result (scans.engine_scan txn.handle prefix d)

  unfoldable pub txn_scan_prefix : Bytes → Transaction H → D → ScanIterator I × D
  txn_scan_prefix prefix txn = scan_active (ensure_active txn) prefix txn

  -- The transaction is returned too: nothing else holds it.
  unfoldable pub scan_prefix : Engine D H → Bytes → D → ScanIterator I × Transaction H × D
  scan_prefix engine prefix d =
      let (txn, d1) = begin engine d in
      let (it, d2) = txn_scan_prefix prefix txn d1 in (it, txn, d2)

  unfoldable pub next_of :
      Option ScanError → Option I → ScanIterator I → D → Option (Bytes × Bytes) × ScanIterator I × D
  next_of (some e) i it d = (none, it, d)
  next_of none none it d = (none, it, d)
  next_of none (some i) it d = next_result it (scans.engine_next i d)

  unfoldable pub next : ScanIterator I → D → Option (Bytes × Bytes) × ScanIterator I × D
  next it = next_of it.error it.iter it

  unfoldable pub close_of : Option I → ScanIterator I → D → ScanIterator I × D
  close_of none it d = (it, d)
  close_of (some i) it d = (record it { iter = none }, scans.engine_free i d)

  unfoldable pub close : ScanIterator I → D → ScanIterator I × D
  close it = close_of it.iter it
