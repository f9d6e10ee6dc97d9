-- ===== src/Embedded.antt =====
-- The transactions of embedded/database.go. The engine, which is reached by C functions, is a
-- parameter.
pub mod Scan
mod Ends
mod Reads
mod Tests
use sochdb_go.Prelude.{
  ℕ, zero, suc, List, [], ◌∷◌, Bool, true, false, ◌||◌, Option, none, some, ◌==◌, if◌then◌else◌,
  length,
}
use sochdb_go.Prelude.Result.{Result, ok, err}
use sochdb_go.Prelude.Bytes.{Bytes}

-- The code that sochdb_commit returns.
pub data CommitCode : Type 0 where
  committed_code conflict_code failed_code : CommitCode

-- What sochdb_get and sochdb_get_path return: 0 with the bytes, 1, or another code.
pub data ReadCode : Type 0 where
  read_bytes : Bytes → ReadCode
  not_found_code failed_read : ReadCode

-- The C functions on a transaction's handle `H`; a write returns whether its code is 0.
pub record Engine (D H : Type 0) : Type 0 where
  pub begin_txn : D → H × D
  pub engine_put : H → Bytes → Bytes → D → Bool × D
  pub engine_get : H → Bytes → D → ReadCode × D
  pub engine_delete : H → Bytes → D → Bool × D
  pub engine_put_path : H → Bytes → Bytes → D → Bool × D
  pub engine_get_path : H → Bytes → D → ReadCode × D
  pub engine_commit : H → D → CommitCode × D
  pub engine_abort : H → D → D

pub data TxnError : Type 0 where
  already_committed already_aborted : TxnError
  put_failed get_failed delete_failed put_path_failed get_path_failed : TxnError
  ssi_conflict commit_failed : TxnError

pub record Transaction (H : Type 0) : Type 0 where
  pub handle : H
  pub committed : Bool
  pub aborted : Bool

unfoldable pub ensure_active : {H : Type 0} → Transaction H → Result TxnError (Unit {0})
ensure_active txn =
    if txn.committed
    then err already_committed
    else if txn.aborted
    then err already_aborted
    else ok tt

-- A call of the engine, where the transaction is active.
unfoldable pub if_active :
    {D A : Type 0}
    → Result TxnError (Unit {0})
    → (D → Result TxnError A × D)
    → D
    → Result TxnError A × D
if_active (err e) body d = (err e, d)
if_active (ok _) body d = body d

abbrev pub write_result : {D : Type 0} → TxnError → Bool × D → Result TxnError (Unit {0}) × D
write_result e (true, d) = (ok tt, d)
write_result e (false, d) = (err e, d)

-- An empty value is returned as nil, like a missing key.
abbrev pub read_result : {D : Type 0} → TxnError → ReadCode × D → Result TxnError (Option Bytes) × D
read_result e (not_found_code, d) = (ok none, d)
read_result e (failed_read, d) = (err e, d)
read_result e (read_bytes [], d) = (ok none, d)
read_result e (read_bytes (b ∷ bs), d) = (ok (some (b ∷ bs)), d)

abbrev pub commit_result :
    {D H : Type 0} → Transaction H → CommitCode × D → Result TxnError (Unit {0}) × Transaction H × D
commit_result txn (committed_code, d) = (ok tt, record txn { committed = true }, d)
commit_result txn (conflict_code, d) = (err ssi_conflict, txn, d)
commit_result txn (failed_code, d) = (err commit_failed, txn, d)

module _ {D H : Type 0} (engine : Engine D H) where
  unfoldable pub begin : D → Transaction H × D
  begin d =
      let (handle, d') = engine.begin_txn d in
      (record { handle = handle; committed = false; aborted = false }, d')

  unfoldable pub txn_put : Bytes → Bytes → Transaction H → D → Result TxnError (Unit {0}) × D
  txn_put key value txn =
      if_active (ensure_active txn)
        (λ d. write_result put_failed (engine.engine_put txn.handle key value d))

  unfoldable pub txn_get : Bytes → Transaction H → D → Result TxnError (Option Bytes) × D
  txn_get key txn =
      if_active (ensure_active txn)
        (λ d. read_result get_failed (engine.engine_get txn.handle key d))

  unfoldable pub txn_delete : Bytes → Transaction H → D → Result TxnError (Unit {0}) × D
  txn_delete key txn =
      if_active (ensure_active txn)
        (λ d. write_result delete_failed (engine.engine_delete txn.handle key d))

  unfoldable pub txn_put_path : Bytes → Bytes → Transaction H → D → Result TxnError (Unit {0}) × D
  txn_put_path path value txn =
      if_active (ensure_active txn)
        (λ d. write_result put_path_failed (engine.engine_put_path txn.handle path value d))

  unfoldable pub txn_get_path : Bytes → Transaction H → D → Result TxnError (Option Bytes) × D
  txn_get_path path txn =
      if_active (ensure_active txn)
        (λ d. read_result get_path_failed (engine.engine_get_path txn.handle path d))

  unfoldable pub commit_active :
      Result TxnError (Unit {0})
      → Transaction H
      → D
      → Result TxnError (Unit {0}) × Transaction H × D
  commit_active (err e) txn d = (err e, txn, d)
  commit_active (ok _) txn d = commit_result txn (engine.engine_commit txn.handle d)

  unfoldable pub commit : Transaction H → D → Result TxnError (Unit {0}) × Transaction H × D
  commit txn = commit_active (ensure_active txn) txn

  -- Abort returns no error.
  unfoldable pub abort : Transaction H → D → Transaction H × D
  abort txn d =
      if txn.committed || txn.aborted
      then (txn, d)
      else (record txn { aborted = true }, engine.engine_abort txn.handle d)

  -- The deferred Abort, behind a result.
  unfoldable pub deferred_abort :
      {A : Type 0} → Result TxnError A × Transaction H × D → Result TxnError A × Transaction H × D
  deferred_abort (r, txn, d) = let (txn', d') = abort txn d in (r, txn', d')

  -- What stands behind the function's result: Commit, if there is no error.
  unfoldable pub finish :
      Result TxnError (Unit {0}) × Transaction H × D
      → Result TxnError (Unit {0}) × Transaction H × D
  finish (err e, txn, d) = (err e, txn, d)
  finish (ok _, txn, d) = commit txn d

  -- `fn` may itself end the transaction.
  unfoldable pub with_transaction :
      (Transaction H → D → Result TxnError (Unit {0}) × Transaction H × D)
      → D
      → Result TxnError (Unit {0}) × Transaction H × D
  with_transaction fn d = let (txn, d1) = begin d in deferred_abort (finish (fn txn d1))

  unfoldable pub put : Bytes → Bytes → D → Result TxnError (Unit {0}) × Transaction H × D
  put key value d =
      let (txn, d1) = begin d in
      let (r, d2) = txn_put key value txn d1 in deferred_abort (finish (r, txn, d2))

  unfoldable pub delete : Bytes → D → Result TxnError (Unit {0}) × Transaction H × D
  delete key d =
      let (txn, d1) = begin d in
      let (r, d2) = txn_delete key txn d1 in deferred_abort (finish (r, txn, d2))

  unfoldable pub put_path : Bytes → Bytes → D → Result TxnError (Unit {0}) × Transaction H × D
  put_path path value d =
      let (txn, d1) = begin d in
      let (r, d2) = txn_put_path path value txn d1 in deferred_abort (finish (r, txn, d2))

  -- Behind a read: Commit, if there is no error; its own error is not looked at.
  unfoldable pub finish_read :
      {A : Type 0} → Transaction H → Result TxnError A × D → Result TxnError A × Transaction H × D
  finish_read txn (err e, d) = (err e, txn, d)
  finish_read txn (ok value, d) = let (_, txn', d') = commit txn d in (ok value, txn', d')

  unfoldable pub get : Bytes → D → Result TxnError (Option Bytes) × Transaction H × D
  get key d = let (txn, d1) = begin d in deferred_abort (finish_read txn (txn_get key txn d1))

  unfoldable pub get_path : Bytes → D → Result TxnError (Option Bytes) × Transaction H × D
  get_path path d =
      let (txn, d1) = begin d in deferred_abort (finish_read txn (txn_get_path path txn d1))
