-- ===== src/MemorySystem/Reads.antt =====
-- What the loop over a scan finds.
use sochdb_go.Prelude.{
  ◌≡◌, refl, sym, ap, ◌∙◌, inl, inr, In, List, [], ◌∷◌, Option, some, Option-cases,
}
use mathlib.Core.Path.{subst}
use sochdb_go.Prelude.Bytes.{Bytes}
use sochdb_go.MemorySystem.{read_values}

read_values-some :
    {A : Type 0}
    → (unmarshal : Bytes → Option A) (k v : Bytes) (entries : List (Bytes × Bytes)) (a : A)
    → unmarshal v ≡ some a
    → read_values unmarshal ((k, v) ∷ entries) ≡ a ∷ read_values unmarshal entries
unfolding read_values
read_values-some unmarshal k v entries a read = rw (read, read_values) refl

pub In-read_values :
    {A : Type 0}
    → (unmarshal : Bytes → Option A) (entries : List (Bytes × Bytes)) (key value : Bytes) (a : A)
    → In (key, value) entries
    → unmarshal value ≡ some a
    → In a (read_values unmarshal entries)
unfolding read_values
In-read_values unmarshal [] key value a i e = absurd i
In-read_values unmarshal ((k, v) ∷ entries) key value a (inl same) e =
    let read : unmarshal v ≡ some a =
      ap unmarshal (sym (ap (λ (p : Bytes × Bytes). p.1) same)) ∙ e in
    subst (In a) (sym (read_values-some unmarshal k v entries a read)) (inl refl)
In-read_values unmarshal ((k, v) ∷ entries) key value a (inr i) e =
    let later = In-read_values unmarshal entries key value a i e in
    elim (Option-cases (unmarshal v)) [
      | inl none_read ↦ rw (none_read, read_values) later
      | inr (b, read) ↦ rw (read, read_values) (inr later)
    ]
