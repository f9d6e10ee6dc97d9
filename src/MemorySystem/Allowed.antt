-- ===== src/MemorySystem/Allowed.antt =====
-- What the sets of allowed documents allow.
use sochdb_go.Prelude.{
  ◌≡◌, refl, sym, ap, ◌⊎◌, ◌↔◌, inl, inr, In, List, [], ◌∷◌, ◌++◌, Bool, true, Option, Bool-cases,
  length, take, length-append, arith,
}
use sochdb_go.Prelude.Bytes.{Bytes, codes}
use sochdb_go.Prelude.Bytes.Order.{bytes_eq, bytes_eq_iff}
use sochdb_go.Prelude.Maps.{Dict, lookup, set_entry, lookup-set_entry}
use sochdb_go.MemorySystem.{
  namespace_allowed_set, mark_ids, new_ids_allowed_set, or_false, starts_with, in_namespace,
  is_allowed,
}

-- id is the prefix and a rest.
abbrev pub Begins : Bytes → Bytes → Type 0
Begins prefix id = (rest : Bytes) × (id ≡ prefix ++ rest)

take_split : (p id : Bytes) → take (length p) id ≡ p → Begins p id
take_split [] id h = (id, refl)
take_split (b ∷ p) [] h = absurd (cc)
take_split (b ∷ p) (x ∷ id) h = let (rest, e) = take_split p id (cc) in (rest, cc)

take_front : (p rest : Bytes) → take (length p) (p ++ rest) ≡ p
take_front [] rest = refl
take_front (b ∷ p) rest = ap (λ l. b ∷ l) (take_front p rest)

pub starts_with_iff : (p id : Bytes) → (starts_with p id ≡ true) ↔ Begins p id
unfolding starts_with
starts_with_iff p id = (
  (λ h. take_split p id ((bytes_eq_iff (take (length p) id) p).0 h)),
  (λ (rest, e). (bytes_eq_iff (take (length p) id) p).1 (rw e (take_front p rest))),
)

-- A filter by namespace allows exactly the ids that begin with the namespace and "_" or ":".
pub is_allowed-namespace_iff :
    {V : Type 0} (namespace id : Bytes) (metadata : Option (Dict V))
    → (is_allowed (namespace_allowed_set namespace) id metadata ≡ true)
      ↔ (Begins (namespace ++ codes "_") id ⊎ Begins (namespace ++ codes ":") id)
unfolding is_allowed in_namespace
is_allowed-namespace_iff namespace id metadata = (
  (λ h. elim (Bool-cases (starts_with (namespace ++ codes "_") id)) [
    | inl e ↦ inl ((starts_with_iff (namespace ++ codes "_") id).0 e)
    | inr e ↦ inr ((starts_with_iff (namespace ++ codes ":") id).0 (ground (arith, e)))
  ]),
  (λ b. elim b [
    | inl begins ↦
        let (rest, e) = begins in
        let long = length-append (namespace ++ codes "_") rest in
        let same = ap length e in
        let front = (starts_with_iff (namespace ++ codes "_") id).1 begins in ground arith
    | inr begins ↦
        let (rest, e) = begins in
        let long = length-append (namespace ++ codes ":") rest in
        let same = ap length e in
        let l = length-append namespace (codes "_") in
        let l' = length-append namespace (codes ":") in
        let front = (starts_with_iff (namespace ++ codes ":") id).1 begins in ground arith
  ]),
)

lookup-mark_ids :
    (l : List Bytes) (ids : Dict Bool) (id : Bytes)
    → (or_false (lookup id (mark_ids l ids)) ≡ true) ↔ (In id l ⊎ (or_false (lookup id ids) ≡ true))
unfolding mark_ids
lookup-mark_ids [] ids id = ((λ h. inr h), (λ b. elim b [ inl i ↦ absurd i | inr h ↦ h ]))
lookup-mark_ids (x ∷ l) ids id =
    let rest = lookup-mark_ids l (set_entry x true ids) id in
    let here = lookup-set_entry x true ids id in
    elim (Bool-cases (bytes_eq x id)) [
      | inl e ↦
          let same : x ≡ id = (bytes_eq_iff x id).0 e in
          ((λ h. inl (inl (sym same))), (λ b. rest.1 (inr (rw here (rw e refl)))))
      | inr e ↦ (
        (λ h. elim (rest.0 h) [ inl i ↦ inl (inr i) | inr old ↦ inr (rw e at (rw here at old)) ]),
        (λ b. elim b [
          | inl i ↦ elim i [
            | inl same ↦ absurd (let e' = (bytes_eq_iff x id).1 (sym same) in cc)
            | inr j ↦ rest.1 (inl j)
          ]
          | inr old ↦ rest.1 (inr (rw here (rw e old)))
        ]),
      )
    ]

-- A filter by ids allows exactly the ids of the list.
pub is_allowed-ids_iff :
    {V : Type 0} (ids : List Bytes) (id : Bytes) (metadata : Option (Dict V))
    → (is_allowed (new_ids_allowed_set ids) id metadata ≡ true) ↔ In id ids
unfolding is_allowed new_ids_allowed_set lookup
is_allowed-ids_iff ids id metadata =
    let (there, back) = lookup-mark_ids ids [] id in
    ((λ h. elim (there h) [ inl i ↦ i | inr e ↦ absurd (cc) ]), (λ i. back (inl i)))
