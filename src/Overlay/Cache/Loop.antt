-- ===== src/Overlay/Cache/Loop.antt =====
-- The loop of CacheGet over the entries of the scan.
use sochdb_go.Prelude.{
  ◌≡◌, refl, sym, ap, ◌∙◌, ◌⊎◌, inl, inr, List, [], ◌∷◌, true, false, Option, none, some,
  Bool-cases, In,
}
use mathlib.Core.Path.{subst}
use sochdb_go.Prelude.Int.{ℤ}
use sochdb_go.Wire.Entries.{KeyValue}
use sochdb_go.Overlay.Cache.{
  Float32, CacheEntry, CacheJson, usable, score, compare_entry, improve, best_match,
}

-- IEEE 754: no number is above itself, and `above` is transitive (comparisons with NaN are false).
pub record LawfulFloat {F : Type 0} (float : Float32 F) : Type 0 where
  pub above-irreflexive : (x : F) → float.above x x ≡ false
  pub above-transitive :
      (x y z : F) → float.above x y ≡ true → float.above y z ≡ true → float.above x z ≡ true

module _ {F : Type 0} (float : Float32 F) (json : CacheJson F) (law : LawfulFloat float) where
  not-above :
      (x y z : F) → float.above y z ≡ true → float.above x z ≡ false → float.above x y ≡ false
  not-above x y z h k = elim (Bool-cases (float.above x y)) [
    | inl e ↦ absurd (let t = law.above-transitive x y z e h in cc)
    | inr e ↦ e
  ]

  -- An entry that passes the tests of CacheGet before it is compared with the best one so far.
  abbrev pub Candidate : ℤ → List F → F → List KeyValue → CacheEntry F → Type 0
  Candidate now query threshold kvs entry =
      (kv : KeyValue) × In kv kvs
      × (usable float json now query kv ≡ some entry)
      × (float.at_least (score float json query entry) threshold ≡ true)

  -- The state behind a round: replaced by a better candidate, or kept.
  abbrev pub Improved :
      List F → F → CacheEntry F → Option (CacheEntry F) × F → Option (CacheEntry F) × F → Type 0
  Improved query threshold entry state state' =
      ((state' ≡ (some entry, score float json query entry))
        × (float.at_least (score float json query entry) threshold ≡ true)
        × (float.above (score float json query entry) state.1 ≡ true))
      ⊎ ((state' ≡ state)
          × (float.at_least (score float json query entry) threshold ≡ true
              → float.above (score float json query entry) state.1 ≡ false))

  compare_entry-Improved :
      (query : List F) (threshold : F) (entry : CacheEntry F) (state : Option (CacheEntry F) × F)
      → Improved query threshold entry state (compare_entry float json query threshold entry state)
  unfolding compare_entry
  compare_entry-Improved query threshold entry state =
      elim (Bool-cases (float.at_least (score float json query entry) threshold)) [
        | inl e ↦ elim (Bool-cases (float.above (score float json query entry) state.1)) [
          | inl f ↦ inl (rw (e, f) refl, e, f)
          | inr f ↦ inr (rw (e, f) refl, λ _. f)
        ]
        | inr e ↦ inr (rw e refl, λ h. absurd (cc))
      ]

  improve-monotone :
      (query : List F) (threshold : F) (found : Option (CacheEntry F))
      (state : Option (CacheEntry F) × F) (x : F)
      → float.above x state.1 ≡ false
      → float.above x (improve float json query threshold found state).1 ≡ false
  unfolding improve
  improve-monotone query threshold none state x h = h
  improve-monotone query threshold (some entry) state x h =
      elim (compare_entry-Improved query threshold entry state) [
        | inl (e, _, better) ↦ rw e (not-above x (score float json query entry) state.1 better h)
        | inr (e, _) ↦ rw e h
      ]

  improve-beats :
      (query : List F) (threshold : F) (entry : CacheEntry F) (state : Option (CacheEntry F) × F)
      → float.at_least (score float json query entry) threshold ≡ true
      → float.above
          (score float json query entry)
          (improve float json query threshold (some entry) state).1
        ≡ false
  unfolding improve
  improve-beats query threshold entry state h =
      elim (compare_entry-Improved query threshold entry state) [
        | inl (e, _, better) ↦ rw e (law.above-irreflexive (score float json query entry))
        | inr (e, worse) ↦ rw e (worse h)
      ]

  best_match-monotone :
      (now : ℤ) (query : List F) (threshold : F) (kvs : List KeyValue)
      (state : Option (CacheEntry F) × F) (x : F)
      → float.above x state.1 ≡ false
      → float.above x (best_match float json now query threshold kvs state).1 ≡ false
  unfolding best_match
  best_match-monotone now query threshold [] state x h = h
  best_match-monotone now query threshold (kv ∷ kvs) state x h =
      best_match-monotone now query threshold kvs _ x
        (improve-monotone query threshold (usable float json now query kv) state x h)

  -- No candidate is above the best similarity behind the loop.
  pub best_match-beats :
      (now : ℤ) (query : List F) (threshold : F) (kvs : List KeyValue)
      (state : Option (CacheEntry F) × F) (entry : CacheEntry F)
      → Candidate now query threshold kvs entry
      → float.above
          (score float json query entry)
          (best_match float json now query threshold kvs state).1
        ≡ false
  unfolding best_match
  best_match-beats now query threshold [] state entry (kv, there, _, _) = absurd there
  best_match-beats now query threshold (kv ∷ kvs) state entry (kv', inl e, use_it, enough) =
      best_match-monotone now query threshold kvs _ (score float json query entry) (
        rw (ap (usable float json now query) (sym e) ∙ use_it)
          (improve-beats query threshold entry state enough))
  best_match-beats now query threshold (kv ∷ kvs) state entry (kv', inr there, use_it, enough) =
      best_match-beats now query threshold kvs _ entry (kv', there, use_it, enough)

  -- The state behind the loop: the first one, or a candidate with its score, which is above it.
  abbrev pub Origin :
      ℤ
      → List F
      → F
      → List KeyValue
      → Option (CacheEntry F) × F
      → Option (CacheEntry F) × F
      → Type 0
  Origin now query threshold kvs state state' =
      (state' ≡ state)
      ⊎ ((entry : CacheEntry F) × Candidate now query threshold kvs entry
          × (state' ≡ (some entry, score float json query entry))
          × (float.above (score float json query entry) state.1 ≡ true))

  Origin-later :
      (now : ℤ) (query : List F) (threshold : F) (kv : KeyValue) (kvs : List KeyValue)
      (state state' : Option (CacheEntry F) × F)
      → Origin now query threshold kvs state state'
      → Origin now query threshold (kv ∷ kvs) state state'
  Origin-later now query threshold kv kvs state state' (inl e) = inl e
  Origin-later now query threshold kv kvs state state'
        (inr (entry, (kv', there, use_it, enough), e, better)) =
      inr (entry, (kv', inr there, use_it, enough), e, better)

  Origin-after :
      (now : ℤ) (query : List F) (threshold : F) (kv : KeyValue) (kvs : List KeyValue)
      (state : Option (CacheEntry F) × F) (entry : CacheEntry F)
      (middle state' : Option (CacheEntry F) × F)
      → usable float json now query kv ≡ some entry
      → Improved query threshold entry state middle
      → Origin now query threshold kvs middle state'
      → Origin now query threshold (kv ∷ kvs) state state'
  Origin-after now query threshold kv kvs state entry middle state' use_it (inr (e, _)) rest =
      Origin-later now query threshold kv kvs state state'
        (subst (λ m. Origin now query threshold kvs m state') e rest)
  Origin-after now query threshold kv kvs state entry middle state' use_it (inl (e, enough, better))
        (inl same) =
      inr (entry, (kv, inl refl, use_it, enough), same ∙ e, better)
  Origin-after now query threshold kv kvs state entry middle state' use_it (inl (e, enough, better))
        (inr (later, (kv', there, use_later, enough_later), same, better_later)) =
      inr (
        later,
        (kv', inr there, use_later, enough_later),
        same,
        law.above-transitive (score float json query later) (score float json query entry) state.1
            (subst
              (λ (m : Option (CacheEntry F) × F).
                float.above (score float json query later) m.1 ≡ true)
              e better_later)
            better,
      )

  improve-Origin :
      (now : ℤ) (query : List F) (threshold : F) (kv : KeyValue) (kvs : List KeyValue)
      (state : Option (CacheEntry F) × F) (found : Option (CacheEntry F))
      (state' : Option (CacheEntry F) × F)
      → usable float json now query kv ≡ found
      → Origin now query threshold kvs (improve float json query threshold found state) state'
      → Origin now query threshold (kv ∷ kvs) state state'
  unfolding improve
  improve-Origin now query threshold kv kvs state none state' use_it rest =
      Origin-later now query threshold kv kvs state state' rest
  improve-Origin now query threshold kv kvs state (some entry) state' use_it rest =
      Origin-after now query threshold kv kvs state entry _ state' use_it
        (compare_entry-Improved query threshold entry state) rest

  pub best_match-Origin :
      (now : ℤ) (query : List F) (threshold : F) (kvs : List KeyValue)
      (state : Option (CacheEntry F) × F)
      → Origin now query threshold kvs state (best_match float json now query threshold kvs state)
  unfolding best_match
  best_match-Origin now query threshold [] state = inl refl
  best_match-Origin now query threshold (kv ∷ kvs) state =
      improve-Origin now query threshold kv kvs state (usable float json now query kv) _ refl
        (best_match-Origin now query threshold kvs _)
