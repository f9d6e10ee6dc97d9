-- ===== src/MemorySystem/Consolidation/Writes.antt =====
-- What a consolidation writes.
use sochdb_go.Prelude.{
  In-append, ℕ, ◌≡◌, refl, sym, ap, ◌∙◌, ◌⊎◌, inl, inr, In, List, [], ◌∷◌, ◌++◌, Bool, true, false,
  Option, none, some, Bool-cases, Option-cases,
}
use mathlib.Core.Path.{subst}
use sochdb_go.Prelude.Int.{ℤ}
use sochdb_go.Prelude.Bytes.{Bytes}
use sochdb_go.Prelude.Bytes.Order.{bytes_eq, bytes_eq_iff}
use sochdb_go.Prelude.Maps.{Dict, lookup, set_entry, lookup-In, In-set_entry}
use sochdb_go.MemorySystem.{Fields, RawAssertion, AutoDb, LawfulDb}
use sochdb_go.MemorySystem.Consolidation.{
  Consolidator, ConsolidationEnv, canonical_key, group_or_nil, group_by_fact, is_contradicted,
  valid_assertions, canonical_fact, generate_canonical_id,
}
use sochdb_go.MemorySystem.Consolidation.Stored.{
  counted, store_canonical, store_group, store_groups, get_all_assertions, get_contradictions,
  consolidate,
}

module _ {F V S : Type 0} (env : ConsolidationEnv F V) (db : AutoDb S) where
  -- `range` goes through groups of the map only, sort.Slice keeps to the assertions it has, and the
  -- database is lawful.
  pub record LawfulWrites : Type 0 where
    pub In-range :
        (e : Bytes × List (RawAssertion F V)) (groups : Dict (List (RawAssertion F V)))
        → In e (env.range_groups groups)
        → In e groups
    pub In-sort :
        (a : RawAssertion F V) (group : List (RawAssertion F V))
        → In a (env.sort_group group)
        → In a group
    pub stored : LawfulDb db

  pub counted_state : (updated : ℕ) (after : S × Bool) → (counted env db updated after).1 ≡ after.0
  counted_state updated (s, true) = refl
  counted_state updated (s, false) = refl

  abbrev pub Grouped : List (RawAssertion F V) → Dict (List (RawAssertion F V)) → Type 0
  Grouped assertions groups =
      (key : Bytes) (group : List (RawAssertion F V))
      → In (key, group) groups
      → (x : RawAssertion F V) → In x group
      → In x assertions × (env.marshal_fact x.fact ≡ some key)

  append-Grouped :
      (all : List (RawAssertion F V)) (a : RawAssertion F V) (key : Bytes)
      (groups : Dict (List (RawAssertion F V)))
      → In a all
      → env.marshal_fact a.fact ≡ some key
      → Grouped all groups
      → Grouped all (set_entry key (group_or_nil (lookup key groups) ++ (a ∷ [])) groups)
  append-Grouped all a key groups there e old k group i x j =
      elim (In-set_entry (k, group) key _ groups i) [
        | inr older ↦ old k group older x j
        | inl new ↦
            let same : k ≡ key = ap (λ (p : Bytes × List (RawAssertion F V)). p.0) new in
            let made : group ≡ group_or_nil (lookup key groups) ++ (a ∷ []) =
              ap (λ (p : Bytes × List (RawAssertion F V)). p.1) new in
            elim (In-append x (group_or_nil (lookup key groups)) (a ∷ []) (subst (In x) made j)) [
              | inr (inl here) ↦ (subst (λ y. In y all) (sym here) there, rw (here, same) e)
              | inr (inr never) ↦ absurd never
              | inl before ↦ elim (Option-cases (lookup key groups)) [
                | inl missing ↦ absurd (rw missing at before)
                | inr (g, found) ↦
                    let (m, fact) =
                      old key g (lookup-In key g groups found) x (rw found at before) in
                    (m, fact ∙ ap some (sym same))
              ]
            ]
      ]

  pub group_by_fact-Grouped :
      (all assertions : List (RawAssertion F V)) (groups : Dict (List (RawAssertion F V)))
      → ((a : RawAssertion F V) → In a assertions → In a all)
      → Grouped all groups
      → Grouped all (group_by_fact env assertions groups)
  unfolding group_by_fact
  group_by_fact-Grouped all [] groups within old = old
  group_by_fact-Grouped all (a ∷ assertions) groups within old =
      elim (Option-cases (env.marshal_fact a.fact)) [
        | inl e ↦ rw e (group_by_fact-Grouped all assertions groups (λ b i. within b (inr i)) old)
        | inr (key, e) ↦ rw e (
            group_by_fact-Grouped all assertions _ (λ b i. within b (inr i))
              (append-Grouped all a key groups (within a (inl refl)) e old))
      ]

  module _ (now : ℤ) (c : Consolidator F) (contradictions : List (Fields V)) where
    pub valid_assertions-In :
        (group : List (RawAssertion F V)) (x : RawAssertion F V)
        → In x (valid_assertions env c.config now contradictions group)
        → In x group × (is_contradicted env c.config now contradictions x.id ≡ false)
    unfolding valid_assertions
    valid_assertions-In [] x i = absurd i
    valid_assertions-In (a ∷ group) x i =
        elim (Bool-cases (is_contradicted env c.config now contradictions a.id)) [
          | inl e ↦ let (j, fine) = valid_assertions-In group x (rw e at i) in (inr j, fine)
          | inr e ↦ elim (rw e at i) [
            | inl here ↦ (inl here, rw here e)
            | inr later ↦ let (j, fine) = valid_assertions-In group x later in (inr j, fine)
          ]
        ]

    -- The value is a canonical fact's: made of the given assertions, none contradicted, that all state
    -- the fact under whose digest the key stands.
    abbrev pub Canonical : List (RawAssertion F V) → Bytes → Bytes → Type 0
    Canonical all key value =
        (a : RawAssertion F V) × (rest : List (RawAssertion F V)) × (key
          ≡ canonical_key c (generate_canonical_id env a))
        × (env.marshal_canonical (canonical_fact env a rest) ≡ some value)
        × ((x : RawAssertion F V)
            → In x (a ∷ rest)
            → In x all
              × (is_contradicted env c.config now contradictions x.id ≡ false)
              × (env.marshal_fact x.fact ≡ env.marshal_fact a.fact))

    abbrev pub Outcome : List (RawAssertion F V) → Bytes → S → S → Type 0
    Outcome all k s s' =
        (db.get k s' ≡ db.get k s)
        ⊎ ((value : Bytes) × (db.get k s' ≡ some (some value)) × Canonical all k value)

    pub made-Canonical :
        (all group : List (RawAssertion F V)) (key : Bytes) (a : RawAssertion F V)
        (rest : List (RawAssertion F V))
        → ((x : RawAssertion F V)
            → In x (a ∷ rest)
            → In x group × (is_contradicted env c.config now contradictions x.id ≡ false))
        → ((x : RawAssertion F V) → In x group → In x all × (env.marshal_fact x.fact ≡ some key))
        → (value : Bytes) → env.marshal_canonical (canonical_fact env a rest) ≡ some value
        → Canonical all (canonical_key c (generate_canonical_id env a)) value
    made-Canonical all group key a rest fine grouped value made = (
      a,
      rest,
      refl,
      made,
      (λ x i.
          let (j, uncontradicted) = fine x i in
          let (there, fact) = grouped x j in
          (there, uncontradicted, fact ∙ sym (grouped a (fine a (inl refl)).0).1)),
    )

    module _ (lawful : LawfulWrites) where
      store_canonical-Outcome :
          (all : List (RawAssertion F V)) (k id : Bytes) (encoded : Option Bytes) (updated : ℕ)
          (s : S)
          → ((value : Bytes) → encoded ≡ some value → Canonical all (canonical_key c id) value)
          → Outcome all k s (store_canonical env db c id encoded updated s).1
      unfolding store_canonical
      store_canonical-Outcome all k id none updated s made = inl refl
      store_canonical-Outcome all k id (some value) updated s made =
          let state = counted_state updated (db.put (canonical_key c id) value s) in
          elim (Bool-cases (db.put (canonical_key c id) value s).1) [
            | inr e ↦ inl (
                ap (db.get k) state ∙ lawful.stored.get-put_failed k (canonical_key c id) value s e)
            | inl e ↦
                let after =
                  ap (db.get k) state ∙ lawful.stored.get-put k (canonical_key c id) value s e in
                elim (Bool-cases (bytes_eq (canonical_key c id) k)) [
                  | inl same ↦ inr (
                    value,
                    after ∙ rw same refl,
                    subst (λ key. Canonical all key value)
                        ((bytes_eq_iff (canonical_key c id) k).0 same) (made value refl),
                  )
                  | inr other ↦ inl (after ∙ rw other refl)
                ]
          ]

      store_group-Outcome :
          (all : List (RawAssertion F V)) (k : Bytes) (group : List (RawAssertion F V))
          (key : Bytes) (updated : ℕ) (s : S)
          → ((x : RawAssertion F V) → In x group → In x all × (env.marshal_fact x.fact ≡ some key))
          → Outcome all k s
              (store_group env db c
                (valid_assertions env c.config now contradictions group)
                updated
                s).1
      unfolding store_group
      store_group-Outcome all k group key updated s grouped =
          valid_group (valid_assertions env c.config now contradictions group)
            (valid_assertions-In group)
        where
          valid_group :
              (valid : List (RawAssertion F V))
              → ((x : RawAssertion F V)
                  → In x valid
                  → In x group × (is_contradicted env c.config now contradictions x.id ≡ false))
              → Outcome all k s (store_group env db c valid updated s).1
          valid_group [] fine = inl refl
          valid_group (a ∷ rest) fine =
              store_canonical-Outcome all k (generate_canonical_id env a)
                (env.marshal_canonical (canonical_fact env a rest)) updated s
                (made-Canonical all group key a rest fine grouped)

      Outcome-then :
          (all : List (RawAssertion F V)) (k : Bytes) (s s' s'' : S)
          → Outcome all k s s'
          → Outcome all k s' s''
          → Outcome all k s s''
      Outcome-then all k s s' s'' first (inr later) = inr later
      Outcome-then all k s s' s'' (inl same) (inl still) = inl (still ∙ same)
      Outcome-then all k s s' s'' (inr (value, stored, made)) (inl still) =
          inr (value, still ∙ stored, made)

      pub store_groups-Outcome :
          (all : List (RawAssertion F V)) (k : Bytes) (groups : Dict (List (RawAssertion F V)))
          (updated : ℕ) (s : S)
          → Grouped all groups
          → Outcome all k s (store_groups env db now contradictions c groups updated s).1
      unfolding store_groups
      store_groups-Outcome all k [] updated s grouped = inl refl
      store_groups-Outcome all k ((key, group) ∷ groups) updated s grouped =
          let written =
            store_group env db c
              (valid_assertions env c.config now contradictions (env.sort_group group)) updated s in
          Outcome-then all k s written.1 _
            (store_group-Outcome all k (env.sort_group group) key updated s
              (λ x i. grouped key group (inl refl) x (lawful.In-sort x group i)))
            (store_groups-Outcome all k groups written.0 written.1
              (λ key group i. grouped key group (inr i)))

  -- Where Put, `range` and sort.Slice behave as they are documented, Consolidate leaves every key as it
  -- was, or sets it to the marshalled form of a canonical fact: the key is the canonical key of the
  -- fact's digest, and the fact is made of one or more stored assertions that no contradiction rules out
  -- and whose facts are marshalled alike.
  pub consolidate_writes :
      LawfulWrites
      → (now : ℤ) (c : Consolidator F) (s : S) (k : Bytes)
      → (db.get k (consolidate env db now c s).1 ≡ db.get k s)
        ⊎ ((value : Bytes) × (db.get k (consolidate env db now c s).1 ≡ some (some value))
            × Canonical now c
                (get_contradictions env db c s)
                (get_all_assertions env db c s)
                k
                value)
  unfolding consolidate
  consolidate_writes lawful now c s k =
      store_groups-Outcome now c (get_contradictions env db c s) lawful
        (get_all_assertions env db c s) k _ 0 s
        (λ key group i.
          group_by_fact-Grouped (get_all_assertions env db c s) (get_all_assertions env db c s) []
            (λ a j. j) (λ key group i. absurd i) key group (lawful.In-range (key, group) _ i))
