-- ===== src/MemorySystem/Consolidation/Contradictions.antt =====
-- Which assertions count as contradicted.
use sochdb_go.Prelude.{
  ◌≡◌, ◌↔◌, refl, ap, ◌∙◌, inl, inr, In, List, [], ◌∷◌, ◌++◌, true, false, Bool-cases,
}
use sochdb_go.Prelude.Int.{ℤ}
use sochdb_go.Prelude.Bytes.{Bytes}
use sochdb_go.MemorySystem.{Fields, ConsolidationConfig}
use sochdb_go.MemorySystem.Consolidation.{ConsolidationEnv, names, holds, is_contradicted}

module _ {F V : Type 0} (env : ConsolidationEnv F V) (config : ConsolidationConfig F)
    (now : ℤ) where
  -- The first contradiction that names the assertion.
  abbrev pub First : List (Fields V) → Bytes → Fields V → Type 0
  First contradictions id cont =
      (front back : List (Fields V)) × (contradictions ≡ front ++ (cont ∷ back))
      × ((c : Fields V) → In c front → names env id c ≡ false)
      × (names env id cont ≡ true)

  none-First : (id : Bytes) (cont : Fields V) → First [] id cont → ⊥
  none-First id cont ([], back, split, before, named) = cc
  none-First id cont (d ∷ front, back, split, before, named) = cc

  same-First :
      (c : Fields V) (contradictions : List (Fields V)) (id : Bytes) (cont : Fields V)
      → names env id c ≡ true
      → First (c ∷ contradictions) id cont
      → c ≡ cont
  same-First c contradictions id cont e ([], back, split, before, named) = cc
  same-First c contradictions id cont e (d ∷ front, back, split, before, named) =
      let same : c ≡ d = cc in
      let apart : names env id c ≡ false = ap (names env id) same ∙ before d (inl refl) in
      absurd (cc)

  tail-First :
      (c : Fields V) (contradictions : List (Fields V)) (id : Bytes) (cont : Fields V)
      → names env id c ≡ false
      → First (c ∷ contradictions) id cont
      → First contradictions id cont
  tail-First c contradictions id cont e ([], back, split, before, named) =
      let same : c ≡ cont = cc in
      let named' : names env id c ≡ true = ap (names env id) same ∙ named in absurd (cc)
  tail-First c contradictions id cont e (d ∷ front, back, split, before, named) =
      (front, back, cc, (λ x i. before x (inr i)), named)

  before_cons :
      (c : Fields V) (front : List (Fields V)) (id : Bytes)
      → names env id c ≡ false
      → ((d : Fields V) → In d front → names env id d ≡ false)
      → (d : Fields V) → In d (c ∷ front)
      → names env id d ≡ false
  before_cons c front id e before d (inl same) = ap (names env id) same ∙ e
  before_cons c front id e before d (inr i) = before d i

  -- An assertion is contradicted exactly if the first contradiction that names it holds: where that one
  -- is too old, a later one, also a recent one, is not looked at.
  pub is_contradicted_iff :
      (contradictions : List (Fields V)) (id : Bytes)
      → (is_contradicted env config now contradictions id ≡ true)
        ↔ ((cont : Fields V) × First contradictions id cont × (holds env config now cont ≡ true))
  unfolding is_contradicted
  is_contradicted_iff [] id =
      ((λ h. absurd (cc)), (λ (cont, first, h). absurd (none-First id cont first)))
  is_contradicted_iff (c ∷ contradictions) id =
      let later = is_contradicted_iff contradictions id in
      elim (Bool-cases (names env id c)) [
        | inl e ↦ rw e (
          (λ h. (c, ([], contradictions, refl, (λ d i. absurd i), e), h)),
          (λ (cont, first, h).
              ap (holds env config now) (same-First c contradictions id cont e first) ∙ h),
        )
        | inr e ↦ rw e (
          (λ h.
              let (cont, (front, back, split, before, named), held) = later.0 h in
              (
                cont,
                (c ∷ front, back, ap (λ l. c ∷ l) split, before_cons c front id e before, named),
                held,
              )),
          (λ (cont, first, h). later.1 (cont, tail-First c contradictions id cont e first, h)),
        )
      ]
