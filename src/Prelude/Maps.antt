-- ===== src/Prelude/Maps.antt =====
-- Go maps with strings for keys, as association lists that have each key once.
use sochdb_go.Prelude.{
  ℕ, suc, ◌≡◌, refl, sym, ap, ◌∙◌, ◌⊎◌, inl, inr, In, List, [], ◌∷◌, Option, none, some, Bool-cases,
  if◌then◌else◌, arith,
}
use sochdb_go.Prelude.Bytes.{Bytes}
use sochdb_go.Prelude.Bytes.Order.{bytes_eq, bytes_eq_iff, bytes_eq_self}

abbrev pub Dict : Type 0 → Type 0
Dict A = List (Bytes × A)

-- bytes_eq is an equivalence: two equal keys are found alike.
pub bytes_eq_sym : (a b : Bytes) → bytes_eq a b ≡ bytes_eq b a
bytes_eq_sym a b = ground (arith, bytes_eq_iff a b, bytes_eq_iff b a)

module _ {A : Type 0} where
  -- m[key], none where it is missing
  unfoldable pub lookup : Bytes → Dict A → Option A
  lookup key [] = none
  lookup key ((k, a) ∷ m) = if bytes_eq k key then some a else lookup key m

  -- m[key] = a
  unfoldable pub set_entry : Bytes → A → Dict A → Dict A
  set_entry key a [] = (key, a) ∷ []
  set_entry key a ((k, b) ∷ m) =
      let rest = set_entry key a m in if bytes_eq k key then (k, a) ∷ m else (k, b) ∷ rest

  pub lookup-set_entry :
      (key : Bytes) (a : A) (m : Dict A) (j : Bytes)
      → lookup j (set_entry key a m) ≡ (if bytes_eq key j then some a else lookup j m)
  unfolding lookup set_entry
  lookup-set_entry key a [] j = refl
  lookup-set_entry key a ((k, b) ∷ m) j =
      ground (
        arith,
        lookup-set_entry key a m j,
        bytes_eq_iff k key,
        bytes_eq_iff k j,
        bytes_eq_iff key j,
      )

  -- Each key stands once.
  abbrev pub DistinctKeys : Dict A → Type 0
  DistinctKeys [] = Unit {0}
  DistinctKeys ((k, a) ∷ m) = (lookup k m ≡ none) × DistinctKeys m

  pub lookup-In : (key : Bytes) (a : A) (m : Dict A) → lookup key m ≡ some a → In (key, a) m
  unfolding lookup
  lookup-In key a [] h = absurd (cc)
  lookup-In key a ((k, b) ∷ m) h = elim (Bool-cases (bytes_eq k key)) [
    | inl e ↦
        let same : k ≡ key = (bytes_eq_iff k key).0 e in
        let value : b ≡ a = let h' = rw e at h in cc in inl (cc)
    | inr e ↦ inr (lookup-In key a m (rw e at h))
  ]

  pub In-lookup :
      (key : Bytes) (a : A) (m : Dict A) → DistinctKeys m → In (key, a) m → lookup key m ≡ some a
  unfolding lookup
  In-lookup key a [] d i = absurd i
  In-lookup key a ((k, b) ∷ m) (apart, d) (inl e) =
      let same : key ≡ k = ap (λ p. p.0) e in
      rw (ap (λ t. bytes_eq t key) (sym same) ∙ bytes_eq_self key) (ap (λ p. some p.1) (sym e))
  In-lookup key a ((k, b) ∷ m) (apart, d) (inr i) =
      let there = In-lookup key a m d i in
      elim (Bool-cases (bytes_eq k key)) [
        | inl e ↦
            let same : k ≡ key = (bytes_eq_iff k key).0 e in
            absurd (let gone = rw same at apart in cc)
        | inr e ↦ rw e there
      ]

  pub set_entry-DistinctKeys :
      (key : Bytes) (a : A) (m : Dict A) → DistinctKeys m → DistinctKeys (set_entry key a m)
  unfolding set_entry
  set_entry-DistinctKeys key a [] d = (unfold lookup in refl, tt)
  set_entry-DistinctKeys key a ((k, b) ∷ m) (apart, d) = elim (Bool-cases (bytes_eq k key)) [
    | inl e ↦ rw e (apart, d)
    | inr e ↦ rw e (
      lookup-set_entry key a m k ∙ rw (bytes_eq_sym key k ∙ e) apart,
      set_entry-DistinctKeys key a m d,
    )
  ]

pub In-set_entry :
    {A : Type 0} (x : Bytes × A) (key : Bytes) (a : A) (m : Dict A)
    → In x (set_entry key a m)
    → (x ≡ (key, a)) ⊎ In x m
unfolding set_entry
In-set_entry x key a [] (inl e) = inl e
In-set_entry x key a [] (inr i) = absurd i
In-set_entry x key a ((k, b) ∷ m) i = elim (Bool-cases (bytes_eq k key)) [
  | inl e ↦ elim (rw e at i) [
    | inl here ↦ inl (rw (sym ((bytes_eq_iff k key).0 e)) here)
    | inr later ↦ inr (inr later)
  ]
  | inr e ↦ elim (rw e at i) [
    | inl here ↦ inr (inl here)
    | inr later ↦ elim (In-set_entry x key a m later) [
      | inl new ↦ inl new
      | inr old ↦ inr (inr old)
    ]
  ]
]

-- The zero value of a missing number.
abbrev pub or_zero : Option ℕ → ℕ
or_zero none = 0
or_zero (some n) = n

-- m[key]++
unfoldable pub count_up : Bytes → Dict ℕ → Dict ℕ
count_up key m = set_entry key (suc (or_zero (lookup key m))) m

pub lookup-count_up :
    (key : Bytes) (m : Dict ℕ) (j : Bytes)
    → or_zero (lookup j (count_up key m))
      ≡ (if bytes_eq key j then suc (or_zero (lookup j m)) else or_zero (lookup j m))
unfolding count_up
lookup-count_up key m j = elim (Bool-cases (bytes_eq key j)) [
  | inl e ↦
      let same : key ≡ j = (bytes_eq_iff key j).0 e in
      ap or_zero (lookup-set_entry key (suc (or_zero (lookup key m))) m j) ∙ rw (e, same) refl
  | inr e ↦ ap or_zero (lookup-set_entry key (suc (or_zero (lookup key m))) m j) ∙ rw e refl
]
