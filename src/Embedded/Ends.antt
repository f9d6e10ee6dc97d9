-- ===== src/Embedded/Ends.antt =====
-- Transactions end, and ended ones are refused.
use sochdb_go.Prelude.{◌≡◌, refl, true, false, ◌||◌, Bool-cases, inl, inr, ◌⊎◌, arith}
use sochdb_go.Prelude.Result.{Result, ok, err}
use sochdb_go.Prelude.Bytes.{Bytes}
use sochdb_go.Embedded.{
  CommitCode, committed_code, conflict_code, failed_code, Engine, TxnError, already_committed,
  already_aborted, ssi_conflict, commit_failed, Transaction, ensure_active, if_active,
  commit_result, begin, txn_put, txn_get, txn_delete, txn_put_path, txn_get_path, commit_active,
  commit, abort, deferred_abort, finish, with_transaction,
}

-- The transaction was committed or aborted.
abbrev pub Ended : {H : Type 0} → Transaction H → Type 0
Ended txn = (txn.committed || txn.aborted) ≡ true

pub ensure_active-Ended :
    {H : Type 0} (txn : Transaction H) → Ended txn → (e : TxnError) × (ensure_active txn ≡ err e)
unfolding ensure_active
ensure_active-Ended txn ended = elim (Bool-cases txn.committed) [
  | inl e ↦ (already_committed, rw e refl)
  | inr e ↦ (already_aborted, rw (e, rw e at ended) refl)
]

ensure_active-ok :
    {H : Type 0} (txn : Transaction H)
    → txn.committed ≡ false
    → txn.aborted ≡ false
    → ensure_active txn ≡ ok tt
unfolding ensure_active
ensure_active-ok txn h k = rw (h, k) refl

module _ {D H : Type 0} (engine : Engine D H) where
  pub abort-Ended : (txn : Transaction H) (d : D) → Ended (abort engine txn d).0
  unfolding abort
  abort-Ended txn d = ground arith

  -- What the engine is told at the end: one abort, one commit that succeeds, or a commit that fails
  -- and then an abort.
  abbrev pub Told :
      Result TxnError (Unit {0}) → Transaction H → D → Result TxnError (Unit {0}) → D → Type 0
  Told (err e) txn d r d' = (r ≡ err e) × (d' ≡ engine.engine_abort txn.handle d)
  Told (ok _) txn d r d' =
      ((engine.engine_commit txn.handle d ≡ (committed_code, d')) × (r ≡ ok tt))
      ⊎ ((failed : D) × (e : TxnError) × ((engine.engine_commit txn.handle d
              ≡ (conflict_code, failed))
            ⊎ (engine.engine_commit txn.handle d ≡ (failed_code, failed)))
          × (r ≡ err e)
          × (d' ≡ engine.engine_abort txn.handle failed))

  commit-Told :
      (txn : Transaction H) (d : D) (code : CommitCode) (d1 : D)
      → txn.committed ≡ false
      → txn.aborted ≡ false
      → engine.engine_commit txn.handle d ≡ (code, d1)
      → Told
          (ok tt)
          txn
          d
          (deferred_abort engine (commit_result txn (code, d1))).0
          (deferred_abort engine (commit_result txn (code, d1))).2
  unfolding deferred_abort abort
  commit-Told txn d committed_code d1 h k e = inl (e, refl)
  commit-Told txn d conflict_code d1 h k e = inr (d1, ssi_conflict, inl e, refl, rw (h, k) refl)
  commit-Told txn d failed_code d1 h k e = inr (d1, commit_failed, inr e, refl, rw (h, k) refl)

  finish-Told :
      (r : Result TxnError (Unit {0})) (txn : Transaction H) (d : D)
      → txn.committed ≡ false
      → txn.aborted ≡ false
      → Told r txn d
          (deferred_abort engine (finish engine (r, txn, d))).0
          (deferred_abort engine (finish engine (r, txn, d))).2
  unfolding finish commit commit_active deferred_abort abort
  finish-Told (err e) txn d h k = (refl, rw (h, k) refl)
  finish-Told (ok _) txn d h k = rw (ensure_active-ok txn h k) (commit-Told txn d _ _ h k refl)

  -- Where the function leaves its transaction active, WithTransaction ends it: after an error of the
  -- function the engine is told to abort, and the error is returned; otherwise it is told to commit,
  -- and, only if that fails, to abort, and the error of the commit is returned. Whatever the
  -- function does, the transaction is committed or aborted in the end.
  pub with_transaction_ends :
      (fn : Transaction H → D → Result TxnError (Unit {0}) × Transaction H × D) (d : D)
      → Ended (with_transaction engine fn d).1
        × ((fn (begin engine d).0 (begin engine d).1).1.committed ≡ false
            → (fn (begin engine d).0 (begin engine d).1).1.aborted ≡ false
            → Told
                (fn (begin engine d).0 (begin engine d).1).0
                (fn (begin engine d).0 (begin engine d).1).1
                (fn (begin engine d).0 (begin engine d).1).2
                (with_transaction engine fn d).0
                (with_transaction engine fn d).2)
  unfolding with_transaction deferred_abort
  with_transaction_ends fn d = (
    abort-Ended _ _,
    λ h k.
        finish-Told (fn (begin engine d).0 (begin engine d).1).0
          (fn (begin engine d).0 (begin engine d).1).1 (fn (begin engine d).0 (begin engine d).1).2
          h k,
  )

  -- On a transaction that was ended, each operation returns an error and changes nothing, the engine
  -- included, and Abort changes nothing.
  pub Ended-refused :
      (txn : Transaction H) (d : D)
      → Ended txn
      → (e : TxnError) × ((key value : Bytes) → txn_put engine key value txn d ≡ (err e, d))
        × ((key : Bytes) → txn_get engine key txn d ≡ (err e, d))
        × ((key : Bytes) → txn_delete engine key txn d ≡ (err e, d))
        × ((path value : Bytes) → txn_put_path engine path value txn d ≡ (err e, d))
        × ((path : Bytes) → txn_get_path engine path txn d ≡ (err e, d))
        × (commit engine txn d ≡ (err e, txn, d))
        × (abort engine txn d ≡ (txn, d))
  unfolding txn_put txn_get txn_delete txn_put_path txn_get_path commit commit_active abort
      if_active
  Ended-refused txn d ended =
      let (e, refused) = ensure_active-Ended txn ended in
      (
        e,
        λ key value. rw refused refl,
        λ key. rw refused refl,
        λ key. rw refused refl,
        λ path value. rw refused refl,
        λ path. rw refused refl,
        rw refused refl,
        rw ended refl,
      )
