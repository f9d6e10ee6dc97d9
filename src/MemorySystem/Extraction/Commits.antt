-- ===== src/MemorySystem/Extraction/Commits.antt =====
-- What is committed is found again.
use sochdb_go.Prelude.{
  ◌≡◌, refl, sym, ap, ◌∙◌, ◌⊎◌, inl, inr, In, List, [], ◌∷◌, ◌++◌, Bool, true, false, Bool-cases,
  Option, none, some, Option-cases,
}
use sochdb_go.Prelude.Bytes.{Bytes, codes}
use sochdb_go.Prelude.Bytes.Order.{bytes_eq, bytes_eq_iff}
use sochdb_go.MemorySystem.{
  Entity, Relation, Assertion, ExtractionResult, AutoDb, LawfulDb, read_values,
}
use sochdb_go.MemorySystem.Extraction.{
  ExtractionPipeline, ExtractionError, ExtractionEnv, entity_key, relation_key, assertion_key,
}
use sochdb_go.MemorySystem.Reads.{In-read_values}
use sochdb_go.MemorySystem.Extraction.Keys.{
  key-split, relation_entity, assertion_entity, assertion_relation,
}
use sochdb_go.MemorySystem.Extraction.Stored.{
  after_put, store_items, and_then, commit, get_entities, get_relations, get_assertions,
}

module _ {F V S : Type 0} (env : ExtractionEnv F V) (db : AutoDb S) (lawful : LawfulDb db) where
  -- The item or a later one with its key is what is stored under the key.
  abbrev Written : {A : Type 0} → (A → Bytes) → (A → Option Bytes) → List A → Bytes → S → Type 0
  Written {A} key marshal items k s =
      (y : A) × (value : Bytes) × In y items
      × (key y ≡ k)
      × (marshal y ≡ some value)
      × (db.get k s ≡ some (some value))

  abbrev Kept : {A : Type 0} → (A → Bytes) → List A → Bytes → S → S → Type 0
  Kept {A} key items k s s' =
      ((y : A) → In y items → bytes_eq (key y) k ≡ false) × (db.get k s' ≡ db.get k s)

  after_put-none :
      (rest : S → Option ExtractionError × S) (put : S × Bool) (s' : S)
      → after_put env db rest put ≡ (none, s')
      → (put.1 ≡ true) × (rest put.0 ≡ (none, s'))
  after_put-none rest (s, true) s' h = (refl, h)
  after_put-none rest (s, false) s' h =
      absurd (let e = ap (λ (p : Option ExtractionError × S). p.0) h in cc)

  store_items-Written :
      {A : Type 0}
      → (key : A → Bytes) (marshal : A → Option Bytes) (items : List A) (k : Bytes) (s s' : S)
      → store_items env db key marshal items s ≡ (none, s')
      → Written key marshal items k s' ⊎ Kept key items k s s'
  unfolding store_items
  store_items-Written key marshal [] k s s' h =
      inr ((λ y i. absurd i), ap (λ (p : Option ExtractionError × S). db.get k p.1) (sym h))
  store_items-Written {A} key marshal (x ∷ items) k s s' h = elim (Option-cases (marshal x)) [
    | inl e ↦ absurd (let e' = ap (λ (p : Option ExtractionError × S). p.0) (rw e at h) in cc)
    | inr (value, e) ↦
        let (stored, rest) =
          after_put-none (store_items env db key marshal items) (db.put (key x) value s) s'
            (rw e at h) in
        let put = lawful.get-put k (key x) value s stored in
        elim (store_items-Written key marshal items k (db.put (key x) value s).0 s' rest) [
          | inl (y, v, i, same, made, found) ↦ inl (y, v, inr i, same, made, found)
          | inr (apart, kept) ↦ elim (Bool-cases (bytes_eq (key x) k)) [
            | inl same ↦
                inl (
                  x,
                  value,
                  inl refl,
                  (bytes_eq_iff (key x) k).0 same,
                  e,
                  kept ∙ put ∙ rw same refl,
                )
            | inr other ↦ inr (
              (λ y i. elim i [
                | inl here ↦ ap (λ z. bytes_eq (key z) k) here ∙ other
                | inr j ↦ apart y j
              ]),
              kept ∙ put ∙ rw other refl,
            )
          ]
        ]
  ]

  and_then-none :
      (first : Option ExtractionError × S) (rest : S → Option ExtractionError × S) (s' : S)
      → and_then env db first rest ≡ (none, s')
      → (first ≡ (none, first.1)) × (rest first.1 ≡ (none, s'))
  and_then-none (none, s) rest s' h = (refl, h)
  and_then-none (some e, s) rest s' h =
      absurd (let e' = ap (λ (p : Option ExtractionError × S). p.0) h in cc)

  found :
      {A : Type 0}
      → (unmarshal : Bytes → Option A) (kind rest value : Bytes) (p : ExtractionPipeline F) (a : A)
        (s : S)
      → (db.scan (p.prefix ++ (kind ++ [])) s).1 ≡ true
      → db.get (p.prefix ++ (kind ++ rest)) s ≡ some (some value)
      → unmarshal value ≡ some a
      → In a (read_values unmarshal (db.scan (p.prefix ++ (kind ++ [])) s).0)
  found unmarshal kind rest value p a s fine stored read =
      let prefix : Bytes = p.prefix ++ (kind ++ []) in
      In-read_values unmarshal (db.scan prefix s).0 (prefix ++ rest) value a
        (lawful.scan_complete prefix rest value s fine
          (ap (λ k. db.get k s) (sym (key-split p.prefix kind rest)) ∙ stored))
        read

  Kept-apart :
      {A : Type 0}
      → (key : A → Bytes) (marshal : A → Option Bytes) (items : List A) (k : Bytes) (s s' : S)
      → ((y : A) → key y ≡ k → ⊥)
      → Written key marshal items k s' ⊎ Kept key items k s s'
      → db.get k s' ≡ db.get k s
  Kept-apart key marshal items k s s' apart (inl (y, value, i, same, _, _)) = absurd (apart y same)
  Kept-apart key marshal items k s s' apart (inr (_, kept)) = kept

  Written-own :
      {A : Type 0}
      → (key : A → Bytes) (marshal : A → Option Bytes) (items : List A) (x : A) (s s' : S)
      → In x items
      → Written key marshal items (key x) s' ⊎ Kept key items (key x) s s'
      → Written key marshal items (key x) s'
  Written-own key marshal items x s s' i (inl written) = written
  Written-own key marshal items x s s' i (inr (apart, _)) =
      absurd (let other = apart x i in let same = (bytes_eq_iff (key x) (key x)).1 refl in cc)

  -- Where the database is lawful, every item of the result can be read from its marshalled form, and
  -- the scans behind the three prefixes end with no error: after a Commit that gives no error GetEntities, GetRelations and GetAssertions hold, for each
  -- entity, relation and assertion of the result, one of the result's that is stored under the same key.
  pub commit_found :
      (p : ExtractionPipeline F) (result : ExtractionResult F V) (s s' : S)
      → ((e : Entity F V)
          → In e result.entities
          → (b : Bytes) → env.marshal_entity e ≡ some b
          → env.unmarshal_entity b ≡ some e)
      → ((r : Relation F V)
          → In r result.relations
          → (b : Bytes) → env.marshal_relation r ≡ some b
          → env.unmarshal_relation b ≡ some r)
      → ((a : Assertion F)
          → In a result.assertions
          → (b : Bytes) → env.marshal_assertion a ≡ some b
          → env.unmarshal_assertion b ≡ some a)
      → commit env db result p s ≡ (none, s')
      → (db.scan (entity_key p []) s').1 ≡ true
      → (db.scan (relation_key p []) s').1 ≡ true
      → (db.scan (assertion_key p []) s').1 ≡ true
      → ((e : Entity F V)
          → In e result.entities
          → (e' : Entity F V) × In e' result.entities
            × (entity_key p e'.id ≡ entity_key p e.id)
            × In e' (get_entities env db p s'))
        × ((r : Relation F V)
            → In r result.relations
            → (r' : Relation F V) × In r' result.relations
              × (relation_key p r'.id ≡ relation_key p r.id)
              × In r' (get_relations env db p s'))
        × ((a : Assertion F)
            → In a result.assertions
            → (a' : Assertion F) × In a' result.assertions
              × (assertion_key p a'.id ≡ assertion_key p a.id)
              × In a' (get_assertions env db p s'))
  unfolding commit get_entities get_relations get_assertions entity_key relation_key assertion_key
  commit_found p result s s' read_entity read_relation read_assertion h fine_e fine_r fine_a =
      let ke : Entity F V → Bytes = λ e. entity_key p e.id in
      let kr : Relation F V → Bytes = λ r. relation_key p r.id in
      let ka : Assertion F → Bytes = λ a. assertion_key p a.id in
      let (entities, rest) =
        and_then-none (store_items env db ke env.marshal_entity result.entities s) _ s' h in
      let s1 : S = (store_items env db ke env.marshal_entity result.entities s).1 in
      let (relations, assertions) =
        and_then-none (store_items env db kr env.marshal_relation result.relations s1) _ s' rest in
      let s2 : S = (store_items env db kr env.marshal_relation result.relations s1).1 in
      let of_entities =
        λ (k : Bytes). store_items-Written ke env.marshal_entity result.entities k s s1 entities in
      let of_relations = λ (k : Bytes).
        store_items-Written kr env.marshal_relation result.relations k s1 s2 relations in
      let of_assertions = λ (k : Bytes).
        store_items-Written ka env.marshal_assertion result.assertions k s2 s' assertions in
      (
        (λ e i.
            let (e', value, j, same, made, stored) =
              Written-own ke env.marshal_entity result.entities e s s1 i (of_entities (ke e)) in
            let kept =
              Kept-apart kr env.marshal_relation result.relations (ke e) s1 s2
                (λ r. relation_entity p r.id e.id) (of_relations (ke e)) in
            let kept' =
              Kept-apart ka env.marshal_assertion result.assertions (ke e) s2 s'
                (λ a. assertion_entity p a.id e.id) (of_assertions (ke e)) in
            (
              e',
              j,
              same,
              found env.unmarshal_entity (codes "entity:") e.id value p e' s' fine_e
                  (kept' ∙ kept ∙ stored) (read_entity e' j value made),
            )),
        (λ r i.
            let (r', value, j, same, made, stored) =
              Written-own kr env.marshal_relation result.relations r s1 s2 i
                (of_relations (kr r)) in
            let kept =
              Kept-apart ka env.marshal_assertion result.assertions (kr r) s2 s'
                (λ a. assertion_relation p a.id r.id) (of_assertions (kr r)) in
            (
              r',
              j,
              same,
              found env.unmarshal_relation (codes "relation:") r.id value p r' s' fine_r
                  (kept ∙ stored) (read_relation r' j value made),
            )),
        (λ a i.
            let (a', value, j, same, made, stored) =
              Written-own ka env.marshal_assertion result.assertions a s2 s' i
                (of_assertions (ka a)) in
            (
              a',
              j,
              same,
              found env.unmarshal_assertion (codes "assertion:") a.id value p a' s' fine_a stored
                  (read_assertion a' j value made),
            )),
      )
