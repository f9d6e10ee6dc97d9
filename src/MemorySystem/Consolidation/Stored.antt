-- ===== src/MemorySystem/Consolidation/Stored.antt =====
-- What the Consolidator of memory_consolidation.go reads and writes.
use sochdb_go.Prelude.{ℕ, suc, List, [], ◌∷◌, ◌++◌, Bool, true, false, Option, none, some, length}
use sochdb_go.Prelude.Int.{ℤ}
use sochdb_go.Prelude.Result.{Result, ok, err}
use sochdb_go.Prelude.Bytes.{Bytes, codes}
use sochdb_go.Prelude.Maps.{Dict}
use sochdb_go.MemorySystem.{Fields, RawAssertion, CanonicalFact, AutoDb, read_values}
use sochdb_go.MemorySystem.Consolidation.{
  Consolidator, ConsolidationError, ConsolidationEnv, marshal_failed, store_failed,
  unmarshal_failed, assertion_key, contradiction_key, canonical_key, bytes_or_nil, completed,
  group_by_fact, valid_assertions, generate_canonical_id, canonical_fact,
}

module _ {F V : Type 0} (env : ConsolidationEnv F V) {S : Type 0} (db : AutoDb S) where
  abbrev pub added : Bytes → S × Bool → Result ConsolidationError Bytes × S
  added id (s, true) = (ok id, s)
  added id (s, false) = (err store_failed, s)

  unfoldable pub put_assertion :
      Consolidator F → Bytes → Option Bytes → S → Result ConsolidationError Bytes × S
  put_assertion c id none s = (err marshal_failed, s)
  put_assertion c id (some value) s = added id (db.put (assertion_key c id) value s)

  unfoldable pub add :
      RawAssertion F V → ℤ → Consolidator F → S → Result ConsolidationError Bytes × S
  add a now c = put_assertion c (completed env now a).id (env.marshal_raw (completed env now a))

  abbrev pub after_mark :
      (S → Option ConsolidationError × S) → S × Bool → Option ConsolidationError × S
  after_mark rest (s, true) = rest s
  after_mark rest (s, false) = (some store_failed, s)

  abbrev pub put_mark :
      Bytes → Option Bytes → (S → Option ConsolidationError × S) → S → Option ConsolidationError × S
  put_mark key none rest s = (some marshal_failed, s)
  put_mark key (some value) rest s = after_mark rest (db.put key value s)

  unfoldable pub mark_contradicted :
      List Bytes → Bytes → ℤ → Consolidator F → S → Option ConsolidationError × S
  mark_contradicted [] id now c s = (none, s)
  mark_contradicted (contradicted ∷ rest) id now c s =
      put_mark (contradiction_key c contradicted id) (env.marshal_contradiction contradicted id now)
        (mark_contradicted rest id now c) s

  abbrev pub marked : Bytes → Option ConsolidationError × S → Option ConsolidationError × Bytes × S
  marked id (e, s) = (e, id, s)

  abbrev pub after_add :
      List Bytes
      → ℤ
      → Consolidator F
      → Result ConsolidationError Bytes × S
      → Option ConsolidationError × Bytes × S
  after_add contradicts now c (err e, s) = (some e, [], s)
  after_add contradicts now c (ok id, s) = marked id (mark_contradicted contradicts id now c s)

  -- The id is returned together with an error of a contradiction.
  unfoldable pub add_with_contradiction :
      RawAssertion F V → List Bytes → ℤ → Consolidator F → S → Option ConsolidationError × Bytes × S
  add_with_contradiction a contradicts now c s = after_add contradicts now c (add a now c s)

  unfoldable pub get_all_assertions : Consolidator F → S → List (RawAssertion F V)
  get_all_assertions c s = read_values env.unmarshal_raw (db.scan (assertion_key c []) s).0

  unfoldable pub get_contradictions : Consolidator F → S → List (Fields V)
  get_contradictions c s =
      read_values env.unmarshal_contradiction (db.scan (c.prefix ++ codes "contradiction:") s).0

  unfoldable pub get_canonical_facts : Consolidator F → S → List (CanonicalFact F V)
  get_canonical_facts c s = read_values env.unmarshal_canonical (db.scan (canonical_key c []) s).0

  abbrev pub counted : ℕ → S × Bool → ℕ × S
  counted updated (s, true) = (suc updated, s)
  counted updated (s, false) = (updated, s)

  unfoldable pub store_canonical : Consolidator F → Bytes → Option Bytes → ℕ → S → ℕ × S
  store_canonical c id none updated s = (updated, s)
  store_canonical c id (some value) updated s =
      counted updated (db.put (canonical_key c id) value s)

  -- One group, whose valid assertions are given.
  unfoldable pub store_group : Consolidator F → List (RawAssertion F V) → ℕ → S → ℕ × S
  store_group c [] updated s = (updated, s)
  store_group c (a ∷ rest) updated s =
      store_canonical c (generate_canonical_id env a)
        (env.marshal_canonical (canonical_fact env a rest)) updated s

  unfoldable pub store_groups :
      ℤ → List (Fields V) → Consolidator F → Dict (List (RawAssertion F V)) → ℕ → S → ℕ × S
  store_groups now contradictions c [] updated s = (updated, s)
  store_groups now contradictions c ((key, group) ∷ groups) updated s =
      let (updated', s') =
        store_group c (valid_assertions env c.config now contradictions (env.sort_group group))
          updated s in
      store_groups now contradictions c groups updated' s'

  unfoldable pub consolidate : ℤ → Consolidator F → S → ℕ × S
  consolidate now c s =
      store_groups now (get_contradictions c s) c
        (env.range_groups (group_by_fact env (get_all_assertions c s) [])) 0 s

  -- The evidence of a fact: the number of its sources, the sources, and the confidence.
  abbrev pub evidence : Option (CanonicalFact F V) → Result ConsolidationError (ℕ × List Bytes × F)
  evidence none = err unmarshal_failed
  evidence (some fact) = ok (length fact.sources, fact.sources, fact.confidence)

  -- Get gives no error and no bytes for a missing fact.
  abbrev pub explained : Option (Option Bytes) → Result ConsolidationError (ℕ × List Bytes × F)
  explained none = ok (0, [], env.reals.zero_real)
  explained (some value) = evidence (env.unmarshal_canonical (bytes_or_nil value))

  unfoldable pub explain :
      Bytes → Consolidator F → S → Result ConsolidationError (ℕ × List Bytes × F)
  explain fact_id c s = explained (db.get (canonical_key c fact_id) s)
