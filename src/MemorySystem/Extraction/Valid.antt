-- ===== src/MemorySystem/Extraction/Valid.antt =====
-- What an extraction keeps.
use sochdb_go.Prelude.{
  ◌≡◌, ◌↔◌, refl, sym, ap, ◌∙◌, ◌⊎◌, inl, inr, In, List, [], ◌∷◌, Bool, true, false, Bool-cases,
  Option, none, some, Option-cases, ◌&&◌, arith,
}
use mathlib.Core.Path.{subst}
use sochdb_go.Prelude.Int.{ℤ}
use sochdb_go.Prelude.Result.{ok}
use sochdb_go.Prelude.Bytes.{Bytes, codes}
use sochdb_go.Prelude.Bytes.Order.{bytes_eq, bytes_eq_iff}
use sochdb_go.MemorySystem.{Fields, Entity, Relation, Assertion, ExtractionResult, ExtractionSchema}
use sochdb_go.MemorySystem.Extraction.{
  ExtractionPipeline, ExtractionEnv, is_listed, is_known_type, is_confident, validate_entity,
  validate_relation, validate_assertion, value_of, list_or_empty, entity_of, relation_of,
  assertion_of, extract_items, extraction, extract,
}

is_listed_iff : (t : Bytes) (types : List Bytes) → (is_listed t types ≡ true) ↔ In t types
unfolding is_listed
is_listed_iff t [] = ((λ h. absurd (cc)), (λ i. absurd i))
is_listed_iff t (u ∷ types) =
    let later = is_listed_iff t types in
    elim (Bool-cases (bytes_eq u t)) [
      | inl e ↦ rw e ((λ h. inl (sym ((bytes_eq_iff u t).0 e))), (λ i. refl))
      | inr e ↦ rw e (
        (λ h. inr (later.0 h)),
        (λ i. elim i [
          | inl same ↦ absurd (let apart = (bytes_eq_iff u t).1 (sym same) in cc)
          | inr j ↦ later.1 j
        ]),
      )
    ]

is_known_type_iff :
    (types : List Bytes) (t : Bytes) → (is_known_type types t ≡ true) ↔ ((types ≡ []) ⊎ In t types)
unfolding is_known_type
is_known_type_iff [] t = ((λ h. inl refl), (λ i. refl))
is_known_type_iff (u ∷ types) t = (
  (λ h. inr ((is_listed_iff t (u ∷ types)).0 h)),
  (λ i. elim i [ inl never ↦ absurd (cc) | inr there ↦ (is_listed_iff t (u ∷ types)).1 there ]),
)

and_iff : (a b : Bool) → (a && b ≡ true) ↔ ((a ≡ true) × (b ≡ true))
and_iff a b = ground arith

module _ {F V : Type 0} (env : ExtractionEnv F V) where
  -- Without a minimum above zero each confidence will do.
  abbrev pub Confident : ExtractionSchema F → F → Type 0
  Confident schema confidence =
      (env.reals.above schema.min_confidence env.reals.zero_real ≡ false)
      ⊎ (env.reals.above schema.min_confidence confidence ≡ false)

  -- Without a schema everything will do, and without types in it each type.
  abbrev pub Fits :
      (ExtractionSchema F → List Bytes) → Option (ExtractionSchema F) → Bytes → F → Type 0
  Fits types_of none t confidence = Unit {0}
  Fits types_of (some schema) t confidence =
      ((types_of schema ≡ []) ⊎ In t (types_of schema)) × Confident schema confidence

  abbrev pub FitsConfidence : Option (ExtractionSchema F) → F → Type 0
  FitsConfidence none confidence = Unit {0}
  FitsConfidence (some schema) confidence = Confident schema confidence

  -- Made of an object in the list under the key, and fit.
  abbrev pub From : {A : Type 0} → Bytes → Fields V → (Fields V → A) → (A → Type 0) → A → Type 0
  From key raw make Fit x =
      (v : V) × (fields : Fields V) × In v (list_or_empty env (value_of env key raw))
      × (env.as_object v ≡ some fields)
      × (x ≡ make fields)
      × Fit x

  is_confident_iff :
      (schema : ExtractionSchema F) (confidence : F)
      → (is_confident env schema confidence ≡ true) ↔ Confident schema confidence
  unfolding is_confident
  is_confident_iff schema confidence = ground arith

  validate_entity_iff :
      (schema : Option (ExtractionSchema F)) (e : Entity F V)
      → (validate_entity env schema e ≡ true)
        ↔ Fits (λ (s : ExtractionSchema F). s.entity_types) schema e.entity_type e.confidence
  unfolding validate_entity
  validate_entity_iff none e = ((λ h. tt), (λ u. refl))
  validate_entity_iff (some schema) e =
      let both =
        and_iff (is_known_type schema.entity_types e.entity_type)
          (is_confident env schema e.confidence) in
      let known = is_known_type_iff schema.entity_types e.entity_type in
      let confident = is_confident_iff schema e.confidence in
      (
        (λ h. let (k, c) = both.0 h in (known.0 k, confident.0 c)),
        (λ (k, c). both.1 (known.1 k, confident.1 c)),
      )

  validate_relation_iff :
      (schema : Option (ExtractionSchema F)) (r : Relation F V)
      → (validate_relation env schema r ≡ true)
        ↔ Fits (λ (s : ExtractionSchema F). s.relation_types) schema r.relation_type r.confidence
  unfolding validate_relation
  validate_relation_iff none r = ((λ h. tt), (λ u. refl))
  validate_relation_iff (some schema) r =
      let both =
        and_iff (is_known_type schema.relation_types r.relation_type)
          (is_confident env schema r.confidence) in
      let known = is_known_type_iff schema.relation_types r.relation_type in
      let confident = is_confident_iff schema r.confidence in
      (
        (λ h. let (k, c) = both.0 h in (known.0 k, confident.0 c)),
        (λ (k, c). both.1 (known.1 k, confident.1 c)),
      )

  validate_assertion_iff :
      (schema : Option (ExtractionSchema F)) (a : Assertion F)
      → (validate_assertion env schema a ≡ true) ↔ FitsConfidence schema a.confidence
  unfolding validate_assertion
  validate_assertion_iff none a = ((λ h. tt), (λ u. refl))
  validate_assertion_iff (some schema) a = is_confident_iff schema a.confidence

  abbrev Kept : {A : Type 0} → (Fields V → A) → (A → Type 0) → List V → A → Type 0
  Kept make Fit raw x =
      (v : V) × (fields : Fields V) × In v raw
      × (env.as_object v ≡ some fields)
      × (x ≡ make fields)
      × Fit x

  In-extract_items_iff :
      {A : Type 0}
      → (make : Fields V → A) (validate : A → Bool) (Fit : A → Type 0)
      → ((x : A) → (validate x ≡ true) ↔ Fit x)
      → (raw : List V) (x : A) → In x (extract_items env make validate raw) ↔ Kept make Fit raw x
  unfolding extract_items
  In-extract_items_iff make validate Fit fit [] x =
      ((λ i. absurd i), (λ (v, fields, i, _, _, _). absurd i))
  In-extract_items_iff make validate Fit fit (v ∷ raw) x =
      let later = In-extract_items_iff make validate Fit fit raw x in
      let further : Kept make Fit raw x → Kept make Fit (v ∷ raw) x =
        λ (w, fields, i, object, made, fine). (w, fields, inr i, object, made, fine) in
      elim (Option-cases (env.as_object v)) [
        | inl e ↦
            rw (e, extract_items)
              (
                (λ i. further (later.0 i)),
                (λ (w, fields, i, object, made, fine). elim i [
                  | inl same ↦ absurd (let object' = rw same at object in cc)
                  | inr j ↦ later.1 (w, fields, j, object, made, fine)
                ]),
              )
        | inr (fields, e) ↦ elim (Bool-cases (validate (make fields))) [
          | inl valid ↦
              rw (e, extract_items, valid)
                (
                  (λ i. elim i [
                    | inl same ↦ (
                      v,
                      fields,
                      inl refl,
                      e,
                      same,
                      subst Fit (sym same) ((fit (make fields)).0 valid),
                    )
                    | inr j ↦ further (later.0 j)
                  ]),
                  (λ (w, fields', i, object, made, fine). elim i [
                    | inl same ↦
                        let alike : fields ≡ fields' = let object' = rw same at object in cc in
                        inl (made ∙ ap make (sym alike))
                    | inr j ↦ inr (later.1 (w, fields', j, object, made, fine))
                  ]),
                )
          | inr invalid ↦
              rw (e, extract_items, invalid)
                (
                  (λ i. further (later.0 i)),
                  (λ (w, fields', i, object, made, fine). elim i [
                    | inl same ↦
                        let alike : fields ≡ fields' = let object' = rw same at object in cc in
                        let valid =
                          (fit (make fields)).1 (subst Fit (made ∙ ap make (sym alike)) fine) in
                        absurd (cc)
                    | inr j ↦ later.1 (w, fields', j, object, made, fine)
                  ]),
                )
        ]
      ]

  -- Where the extractor gives a result, so does Extract, and it holds exactly what is made of an object
  -- in the result's list of the kind and fits the schema: the type is listed, unless the schema lists
  -- none, and the confidence is not below the minimum, unless that is not above zero.
  pub extract_iff :
      (text : Bytes) (extractor : Bytes → Option (Fields V)) (timestamp : ℤ)
      (p : ExtractionPipeline F) (raw : Fields V)
      → extractor text ≡ some raw
      → (result : ExtractionResult F V) × (extract env text extractor timestamp p ≡ ok result)
        × ((e : Entity F V)
            → In e result.entities
              ↔ From
                  (codes "entities")
                  raw
                  (entity_of env text timestamp)
                  (λ (e : Entity F V).
                    Fits
                      (λ (s : ExtractionSchema F). s.entity_types)
                      p.schema
                      e.entity_type
                      e.confidence)
                  e)
        × ((r : Relation F V)
            → In r result.relations
              ↔ From
                  (codes "relations")
                  raw
                  (relation_of env text timestamp)
                  (λ (r : Relation F V).
                    Fits
                      (λ (s : ExtractionSchema F). s.relation_types)
                      p.schema
                      r.relation_type
                      r.confidence)
                  r)
        × ((a : Assertion F)
            → In a result.assertions
              ↔ From
                  (codes "assertions")
                  raw
                  (assertion_of env text timestamp)
                  (λ (a : Assertion F). FitsConfidence p.schema a.confidence)
                  a)
  unfolding extract extraction
  extract_iff text extractor timestamp p raw given = (
    extraction env text timestamp p raw,
    rw given refl,
    (λ e.
        In-extract_items_iff (entity_of env text timestamp) (validate_entity env p.schema) _
          (validate_entity_iff p.schema) (list_or_empty env (value_of env (codes "entities") raw))
          e),
    (λ r.
        In-extract_items_iff (relation_of env text timestamp) (validate_relation env p.schema) _
          (validate_relation_iff p.schema)
          (list_or_empty env (value_of env (codes "relations") raw)) r),
    (λ a.
        In-extract_items_iff (assertion_of env text timestamp) (validate_assertion env p.schema) _
          (validate_assertion_iff p.schema)
          (list_or_empty env (value_of env (codes "assertions") raw)) a),
  )
