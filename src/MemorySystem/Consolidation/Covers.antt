-- ===== src/MemorySystem/Consolidation/Covers.antt =====
-- What a consolidation does not leave out.
use sochdb_go.Prelude.{
  append-In, ℕ, ◌≡◌, refl, sym, ap, ◌∙◌, ◌⊎◌, inl, inr, In, List, [], ◌∷◌, ◌++◌, true, false,
  Option, none, some, Bool-cases, Option-cases, take,
}
use mathlib.Core.Path.{subst}
use sochdb_go.Prelude.Int.{ℤ}
use sochdb_go.Prelude.Bytes.{Bytes}
use sochdb_go.Prelude.Bytes.Order.{bytes_eq, bytes_eq_iff, bytes_eq_self}
use sochdb_go.Prelude.Maps.{Dict, lookup, set_entry, lookup-set_entry, lookup-In}
use sochdb_go.MemorySystem.{Fields, RawAssertion, CanonicalFact, AutoDb}
use sochdb_go.MemorySystem.Consolidation.{
  Consolidator, ConsolidationEnv, canonical_key, bytes_or_nil, group_or_nil, group_by_fact,
  is_contradicted, valid_assertions, canonical_fact, generate_canonical_id,
}
use sochdb_go.MemorySystem.Consolidation.Stored.{
  store_canonical, store_group, store_groups, get_all_assertions, get_contradictions, consolidate,
}
use sochdb_go.MemorySystem.Consolidation.Writes.{
  LawfulWrites, counted_state, Grouped, group_by_fact-Grouped, valid_assertions-In, Canonical,
  made-Canonical, store_groups-Outcome,
}

module _ {F V S : Type 0} (env : ConsolidationEnv F V) (db : AutoDb S) where
  abbrev Present : Bytes → RawAssertion F V → Dict (List (RawAssertion F V)) → Type 0
  Present key a groups =
      (group : List (RawAssertion F V)) × (lookup key groups ≡ some group) × In a group

  append-Present :
      (key k : Bytes) (a b : RawAssertion F V) (groups : Dict (List (RawAssertion F V)))
      → Present key a groups
      → Present key a (set_entry k (group_or_nil (lookup k groups) ++ (b ∷ [])) groups)
  append-Present key k a b groups (group, there, i) =
      let entry = lookup-set_entry k (group_or_nil (lookup k groups) ++ (b ∷ [])) groups key in
      elim (Bool-cases (bytes_eq k key)) [
        | inl e ↦
            let same : k ≡ key = (bytes_eq_iff k key).0 e in
            let old : group_or_nil (lookup k groups) ≡ group =
              ap (λ j. group_or_nil (lookup j groups)) same ∙ ap group_or_nil there in
            (
              group_or_nil (lookup k groups) ++ (b ∷ []),
              entry ∙ rw e refl,
              append-In a (group_or_nil (lookup k groups)) (b ∷ [])
                  (inl (subst (In a) (sym old) i)),
            )
        | inr e ↦ (group, entry ∙ rw e there, i)
      ]

  group_by_fact-Present :
      (assertions : List (RawAssertion F V)) (groups : Dict (List (RawAssertion F V)))
      (a : RawAssertion F V) (key : Bytes)
      → env.marshal_fact a.fact ≡ some key
      → In a assertions ⊎ Present key a groups
      → Present key a (group_by_fact env assertions groups)
  unfolding group_by_fact
  group_by_fact-Present [] groups a key fact (inl i) = absurd i
  group_by_fact-Present [] groups a key fact (inr there) = there
  group_by_fact-Present (b ∷ assertions) groups a key fact (inl (inl here)) =
      let fact' : env.marshal_fact b.fact ≡ some key =
        ap (λ (x : RawAssertion F V). env.marshal_fact x.fact) (sym here) ∙ fact in
      rw fact' (
        group_by_fact-Present assertions _ a key fact (
          inr (
            group_or_nil (lookup key groups) ++ (b ∷ []),
            lookup-set_entry key (group_or_nil (lookup key groups) ++ (b ∷ [])) groups key
                ∙ rw (bytes_eq_self key) refl,
            append-In a (group_or_nil (lookup key groups)) (b ∷ []) (inr (inl here)),
          )))
  group_by_fact-Present (b ∷ assertions) groups a key fact (inl (inr i)) =
      group_by_fact-Present assertions _ a key fact (inl i)
  group_by_fact-Present (b ∷ assertions) groups a key fact (inr there) =
      elim (Option-cases (env.marshal_fact b.fact)) [
        | inl e ↦ rw e (group_by_fact-Present assertions groups a key fact (inr there))
        | inr (k, e) ↦ rw e (
            group_by_fact-Present assertions _ a key fact
              (inr (append-Present key k a b groups there)))
      ]

  module _ (now : ℤ) (c : Consolidator F) (contradictions : List (Fields V)) where
    In-valid_assertions :
        (group : List (RawAssertion F V)) (x : RawAssertion F V)
        → In x group
        → is_contradicted env c.config now contradictions x.id ≡ false
        → In x (valid_assertions env c.config now contradictions group)
    unfolding valid_assertions
    In-valid_assertions [] x i fine = absurd i
    In-valid_assertions (a ∷ group) x (inl here) fine =
        let fine' : is_contradicted env c.config now contradictions a.id ≡ false =
          ap (λ (y : RawAssertion F V). is_contradicted env c.config now contradictions y.id)
            (sym here)
          ∙ fine in
        rw fine' (inl here)
    In-valid_assertions (a ∷ group) x (inr i) fine =
        let later = In-valid_assertions group x i fine in
        elim (Bool-cases (is_contradicted env c.config now contradictions a.id)) [
          | inl e ↦ rw e later
          | inr e ↦ rw e (inr later)
        ]

    abbrev Covered : List (RawAssertion F V) → Bytes → S → Type 0
    Covered all k s =
        (value : Bytes) × (db.get k s ≡ some (some value))
        × Canonical env db now c contradictions all k value

    module _ (lawful : LawfulWrites env db)
        (put_fine : (key value : Bytes) (s : S) → (db.put key value s).1 ≡ true)
        (marshal_fine : (fact : CanonicalFact F V)
          → (value : Bytes) × (env.marshal_canonical fact ≡ some value)) where
      store_canonical-get :
          (id value : Bytes) (encoded : Option Bytes) (updated : ℕ) (s : S)
          → encoded ≡ some value
          → db.get (canonical_key c id) (store_canonical env db c id encoded updated s).1
            ≡ some (some value)
      unfolding store_canonical
      store_canonical-get id value none updated s e = absurd (cc)
      store_canonical-get id value (some v) updated s e =
          ap (db.get (canonical_key c id))
            (counted_state env db updated (db.put (canonical_key c id) v s))
          ∙ lawful.stored.get-put (canonical_key c id) (canonical_key c id) v s
              (put_fine (canonical_key c id) v s)
          ∙ rw (bytes_eq_self (canonical_key c id)) (ap some e)

      store_group-Covered :
          (all group valid : List (RawAssertion F V)) (key : Bytes) (a : RawAssertion F V)
          (updated : ℕ) (s : S)
          → ((x : RawAssertion F V)
              → In x valid
              → In x group × (is_contradicted env c.config now contradictions x.id ≡ false))
          → ((x : RawAssertion F V) → In x group → In x all × (env.marshal_fact x.fact ≡ some key))
          → In a valid
          → Covered all
              (canonical_key c (generate_canonical_id env a))
              (store_group env db c valid updated s).1
      unfolding store_group generate_canonical_id
      store_group-Covered all group [] key a updated s fine grouped i = absurd i
      store_group-Covered all group (v ∷ rest) key a updated s fine grouped i =
          let (value, made) = marshal_fine (canonical_fact env v rest) in
          let of_v = (grouped v (fine v (inl refl)).0).1 in
          let of_a = (grouped a (fine a i).0).1 in
          let same : generate_canonical_id env v ≡ generate_canonical_id env a =
            ap (λ o. take 16 (env.sha256_hex (bytes_or_nil o))) (of_v ∙ sym of_a) in
          subst
            (λ id. Covered all (canonical_key c id) (store_group env db c (v ∷ rest) updated s).1)
            same
            (
              value,
              store_canonical-get (generate_canonical_id env v) value
                  (env.marshal_canonical (canonical_fact env v rest)) updated s made,
              made-Canonical env db now c contradictions all group key v rest fine grouped value
                  made,
            )

      store_groups-Covered :
          (all : List (RawAssertion F V)) (k : Bytes) (groups : Dict (List (RawAssertion F V)))
          (updated : ℕ) (s : S)
          → Grouped env db all groups
          → Covered all k s
          → Covered all k (store_groups env db now contradictions c groups updated s).1
      store_groups-Covered all k groups updated s grouped (value, stored, made) =
          elim (store_groups-Outcome env db now c contradictions lawful all k groups updated s
            grouped) [ inl same ↦ (value, same ∙ stored, made) | inr covered ↦ covered ]

      store_groups-Covers :
          ((x : RawAssertion F V) (group : List (RawAssertion F V))
            → In x group
            → In x (env.sort_group group))
          → (all : List (RawAssertion F V)) (groups : Dict (List (RawAssertion F V))) (key : Bytes)
            (group : List (RawAssertion F V)) (a : RawAssertion F V) (updated : ℕ) (s : S)
          → Grouped env db all groups
          → In (key, group) groups
          → In a group
          → is_contradicted env c.config now contradictions a.id ≡ false
          → Covered all
              (canonical_key c (generate_canonical_id env a))
              (store_groups env db now contradictions c groups updated s).1
      unfolding store_groups
      store_groups-Covers sort-In all [] key group a updated s grouped i j fine = absurd i
      store_groups-Covers sort-In all ((k, g) ∷ groups) key group a updated s grouped (inr i) j
            fine =
          let written =
            store_group env db c
              (valid_assertions env c.config now contradictions (env.sort_group g)) updated s in
          store_groups-Covers sort-In all groups key group a written.0 written.1
            (λ k g i. grouped k g (inr i)) i j fine
      store_groups-Covers sort-In all ((k, g) ∷ groups) key group a updated s grouped (inl here) j
            fine =
          let written =
            store_group env db c
              (valid_assertions env c.config now contradictions (env.sort_group g)) updated s in
          let same : group ≡ g = ap (λ (p : Bytes × List (RawAssertion F V)). p.1) here in
          store_groups-Covered all (canonical_key c (generate_canonical_id env a)) groups written.0
            written.1 (λ k g i. grouped k g (inr i))
            (store_group-Covered all (env.sort_group g)
              (valid_assertions env c.config now contradictions (env.sort_group g)) k a updated s
              (valid_assertions-In env db now c contradictions (env.sort_group g))
              (λ x i. grouped k g (inl refl) x (lawful.In-sort x g i))
              (In-valid_assertions (env.sort_group g) a (sort-In a g (subst (In a) same j)) fine))

  -- Where Put, `range` and sort.Slice behave as they are documented, keep every group and assertion, and
  -- every Put and Marshal of a canonical fact succeeds: after Consolidate, for each stored assertion that
  -- no contradiction rules out and whose fact can be marshalled, a canonical fact is stored under the
  -- key of its digest, made of such assertions with facts that are marshalled alike.
  pub consolidate_covers :
      LawfulWrites env db
      → ((e : Bytes × List (RawAssertion F V)) (groups : Dict (List (RawAssertion F V)))
          → In e groups
          → In e (env.range_groups groups))
      → ((x : RawAssertion F V) (group : List (RawAssertion F V))
          → In x group
          → In x (env.sort_group group))
      → ((key value : Bytes) (s : S) → (db.put key value s).1 ≡ true)
      → ((fact : CanonicalFact F V) → (value : Bytes) × (env.marshal_canonical fact ≡ some value))
      → (now : ℤ) (c : Consolidator F) (s : S) (a : RawAssertion F V) (key : Bytes)
      → In a (get_all_assertions env db c s)
      → is_contradicted env c.config now (get_contradictions env db c s) a.id ≡ false
      → env.marshal_fact a.fact ≡ some key
      → (value : Bytes) × (db.get
            (canonical_key c (generate_canonical_id env a))
            (consolidate env db now c s).1
          ≡ some (some value))
        × Canonical env db now c
            (get_contradictions env db c s)
            (get_all_assertions env db c s)
            (canonical_key c (generate_canonical_id env a))
            value
  unfolding consolidate
  consolidate_covers lawful range-In sort-In put_fine marshal_fine now c s a key i fine fact =
      let all : List (RawAssertion F V) = get_all_assertions env db c s in
      let grouped = group_by_fact-Grouped env db all all [] (λ a j. j) (λ key group i. absurd i) in
      let (group, there, j) = group_by_fact-Present all [] a key fact (inl i) in
      store_groups-Covers now c (get_contradictions env db c s) lawful put_fine marshal_fine sort-In
        all (env.range_groups (group_by_fact env all [])) key group a 0 s
        (λ key group i. grouped key group (lawful.In-range (key, group) _ i))
        (range-In (key, group) _ (lookup-In key group (group_by_fact env all []) there)) j fine
