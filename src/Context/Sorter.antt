-- ===== src/Context/Sorter.antt =====
-- An insertion sort by priority: what sort.Slice documents can be had.
use mathlib.Core.List.{Permᴰ}
use mathlib.Core.List.Permᴰ
use sochdb_go.Prelude.{
  ◌≡◌, refl, ◌⊎◌, inl, inr, In, List, [], ◌∷◌, true, false, Bool-cases, if◌then◌else◌, arith,
}
use sochdb_go.Prelude.Int.{ℤ, pos, negsuc, ltℤ}
use sochdb_go.Context.{Section}
use sochdb_go.Context.Budget.{ByPriority}

not-lt_trans : (a b c : ℤ) → ltℤ b a ≡ false → ltℤ c b ≡ false → ltℤ c a ≡ false
not-lt_trans (pos a) (pos b) (pos c) h k = ground arith
not-lt_trans (pos a) (pos b) (negsuc c) h k = ground arith
not-lt_trans (pos a) (negsuc b) c h k = absurd (cc)
not-lt_trans (negsuc a) b (pos c) h k = refl
not-lt_trans (negsuc a) (pos b) (negsuc c) h k = absurd (cc)
not-lt_trans (negsuc a) (negsuc b) (negsuc c) h k = ground arith

lt_asymm : (a b : ℤ) → ltℤ a b ≡ true → ltℤ b a ≡ false
lt_asymm (pos a) (pos b) h = ground arith
lt_asymm (pos a) (negsuc b) h = absurd (cc)
lt_asymm (negsuc a) (pos b) h = refl
lt_asymm (negsuc a) (negsuc b) h = ground arith

unfoldable pub insert_section : Section → List Section → List Section
insert_section s [] = s ∷ []
insert_section s (t ∷ sections) =
    let rest = insert_section s sections in
    if ltℤ t.priority s.priority then t ∷ rest else s ∷ t ∷ sections

unfoldable pub sort_sections : List Section → List Section
sort_sections [] = []
sort_sections (s ∷ sections) = insert_section s (sort_sections sections)

insert_section-Permᴰ : (s : Section) (l : List Section) → Permᴰ (insert_section s l) (s ∷ l)
unfolding insert_section
insert_section-Permᴰ s [] = Permᴰ.refl (s ∷ [])
insert_section-Permᴰ s (t ∷ l) = elim (Bool-cases (ltℤ t.priority s.priority)) [
  | inl e ↦ rw e (Permᴰ.trans (Permᴰ.cons refl (insert_section-Permᴰ s l)) (Permᴰ.swap refl refl))
  | inr e ↦ rw e (Permᴰ.refl (s ∷ t ∷ l))
]

pub sort_sections-Permᴰ : (l : List Section) → Permᴰ (sort_sections l) l
unfolding sort_sections
sort_sections-Permᴰ [] = Permᴰ.nil
sort_sections-Permᴰ (s ∷ l) =
    Permᴰ.trans (insert_section-Permᴰ s (sort_sections l)) (Permᴰ.cons refl (sort_sections-Permᴰ l))

In-insert_section :
    (s u : Section) (l : List Section) → In u (insert_section s l) → (u ≡ s) ⊎ In u l
unfolding insert_section
In-insert_section s u [] i = i
In-insert_section s u (t ∷ l) i = ground (arith, In-insert_section s u l)

insert_section-ByPriority :
    (s : Section) (l : List Section) → ByPriority l → ByPriority (insert_section s l)
unfolding insert_section
insert_section-ByPriority s [] h = ((λ t i. absurd i), tt)
insert_section-ByPriority s (t ∷ l) (first, later) = elim (Bool-cases (ltℤ t.priority s.priority)) [
  | inl e ↦ rw e (
    (λ u i. elim (In-insert_section s u l i) [
      | inl same ↦ rw same (lt_asymm t.priority s.priority e)
      | inr behind ↦ first u behind
    ]),
    insert_section-ByPriority s l later,
  )
  | inr e ↦ rw e (
    (λ u i. elim i [
      | inl same ↦ rw same e
      | inr behind ↦ not-lt_trans s.priority t.priority u.priority e (first u behind)
    ]),
    (first, later),
  )
]

pub sort_sections-ByPriority : (l : List Section) → ByPriority (sort_sections l)
unfolding sort_sections
sort_sections-ByPriority [] = tt
sort_sections-ByPriority (s ∷ l) =
    insert_section-ByPriority s (sort_sections l) (sort_sections-ByPriority l)
