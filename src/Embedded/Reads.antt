-- ===== src/Embedded/Reads.antt =====
-- Reads end their transaction, scans do not, and iterators stop.
use sochdb_go.Prelude.{◌≡◌, refl, ap, ◌∙◌, ◌⊎◌, inl, inr, Option, none, some}
use sochdb_go.Prelude.Result.{Result, ok, err}
use sochdb_go.Prelude.Bytes.{Bytes}
use sochdb_go.Embedded.{
  Engine, TxnError, get_failed, Transaction, ensure_active, if_active, read_result, begin, txn_get,
  deferred_abort, finish_read, get,
}
use sochdb_go.Embedded.Scan.{
  NextCode, next_entry, end_code, failed_next, ScanEngine, ScanError, not_active, ScanIterator,
  scan_active, txn_scan_prefix, next_result, next_of, next, close_of, close,
}
use sochdb_go.Embedded.Ends.{Ended, abort-Ended, ensure_active-Ended}

module _ {D H : Type 0} (engine : Engine D H) where
  finish_read-value :
      {A : Type 0} (txn : Transaction H) (p : Result TxnError A × D)
      → (deferred_abort engine (finish_read engine txn p)).0 ≡ p.0
  unfolding finish_read deferred_abort
  finish_read-value txn (err e, d) = refl
  finish_read-value txn (ok value, d) = refl

  -- Database.Get returns what the engine reads under the key in a new transaction (an empty value as
  -- nil), whether or not the commit succeeds, and the transaction is committed or aborted in the end.
  pub get_reads :
      (key : Bytes) (d : D)
      → ((get engine key d).0
          ≡ (read_result get_failed
              (engine.engine_get (begin engine d).0.handle key (begin engine d).1)).0)
        × Ended (get engine key d).1
  unfolding get txn_get if_active ensure_active begin deferred_abort
  get_reads key d = (finish_read-value _ _, abort-Ended engine _ _)

module _ {D H I : Type 0} (scans : ScanEngine D H I) where
  next-lem :
      (it : ScanIterator I) (d : D) (e : Option ScanError) (i : Option I)
      → it.error ≡ e
      → (next_of scans e i it d).0 ≡ none
      → (next_of scans e i it d).1.error ≡ none
      → (i ≡ none) ⊎ ((p : I) × (d' : D) × (i ≡ some p) × (scans.engine_next p d ≡ (end_code, d')))
  unfolding next_of
  next-lem it d (some e) i h stop fine = absurd (cc)
  next-lem it d none none h stop fine = inl refl
  next-lem it d none (some p) h stop fine = inr (read (scans.engine_next p d) refl stop fine)
    where
      read :
          (r : NextCode × D)
          → scans.engine_next p d ≡ r
          → (next_result it r).0 ≡ none
          → (next_result it r).1.error ≡ none
          → (q : I) × (d' : D) × (some p ≡ some q) × (scans.engine_next q d ≡ (end_code, d'))
      read (next_entry key value, d') same stop' fine' = absurd (cc)
      read (end_code, d') same stop' fine' = (p, d', refl, same)
      read (failed_next, d') same stop' fine' = absurd (cc)

  close_of-iter :
      (it : ScanIterator I) (d : D) (i : Option I)
      → it.iter ≡ i
      → (close_of scans i it d).0.iter ≡ none
  unfolding close_of
  close_of-iter it d none h = h
  close_of-iter it d (some p) h = refl

  next_of-closed :
      (it : ScanIterator I) (d : D) (e : Option ScanError)
      → next_of scans e none it d ≡ (none, it, d)
  unfolding next_of
  next_of-closed it d none = refl
  next_of-closed it d (some e) = refl

  next-closed : (it : ScanIterator I) (d : D) → it.iter ≡ none → next scans it d ≡ (none, it, d)
  unfolding next
  next-closed it d h = ap (λ i. next_of scans it.error i it d) h ∙ next_of-closed it d it.error

  close-closed : (it : ScanIterator I) (d : D) → it.iter ≡ none → close scans it d ≡ (it, d)
  unfolding close close_of
  close-closed it d h = ap (λ i. close_of scans i it d) h

  -- If Next returns no entry and Err is nil, the iterator was closed or the engine reported the end
  -- of the scan. An iterator with an error, or a closed one, gives no entry and leaves everything as
  -- it is; a second Close leaves everything as it is; and the iterator of an ended transaction has
  -- an error.
  pub iterator_stops :
      (it : ScanIterator I) (d : D)
      → ((next scans it d).0 ≡ none
          → (next scans it d).1.error ≡ none
          → (it.iter ≡ none)
            ⊎ ((p : I) × (d' : D) × (it.iter ≡ some p) × (scans.engine_next p d ≡ (end_code, d'))))
        × ((e : ScanError) → it.error ≡ some e → next scans it d ≡ (none, it, d))
        × ((d' : D) → next scans (close scans it d).0 d' ≡ (none, (close scans it d).0, d'))
        × ((d' : D) → close scans (close scans it d).0 d' ≡ ((close scans it d).0, d'))
        × ((prefix : Bytes) (txn : Transaction H)
            → Ended txn
            → (e : TxnError) × (txn_scan_prefix scans prefix txn d
                ≡ (record { iter = none; error = some (not_active e) }, d)))
  unfolding next next_of close txn_scan_prefix scan_active
  iterator_stops it d = (
    next-lem it d it.error it.iter refl,
    λ e h. rw h refl,
    λ d'. next-closed (close scans it d).0 d' (close_of-iter it d it.iter refl),
    λ d'. close-closed (close scans it d).0 d' (close_of-iter it d it.iter refl),
    λ prefix txn ended. let (e, refused) = ensure_active-Ended txn ended in (e, rw refused refl),
  )
