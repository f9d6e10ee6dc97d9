-- ===== src/MemorySystem/Memory.antt =====
-- A database in memory, a map: it shows that the laws can hold.
use sochdb_go.Prelude.{
  ◌≡◌, refl, sym, ap, ◌∙◌, In, inl, inr, [], ◌∷◌, ◌++◌, Bool, true, false, Bool-cases, Option, some,
  if◌then◌else◌,
}
use sochdb_go.Prelude.Bytes.{Bytes}
use sochdb_go.Prelude.Bytes.Order.{bytes_eq}
use sochdb_go.Prelude.Maps.{Dict, lookup, set_entry, lookup-set_entry, lookup-In}
use sochdb_go.MemorySystem.{AutoDb, LawfulDb, starts_with}
use sochdb_go.MemorySystem.Allowed.{starts_with_iff}

abbrev pub Stored : Type 0
Stored = Dict Bytes

unfoldable pub behind : Bytes → Stored → Stored
behind prefix [] = []
behind prefix ((k, v) ∷ s) =
    let rest = behind prefix s in if starts_with prefix k then (k, v) ∷ rest else rest

abbrev pub memory : AutoDb Stored
memory = record {
  put = λ k v s. (set_entry k v s, true);
  get = λ k s. some (lookup k s);
  scan = λ prefix s. (behind prefix s, true);
}

In-behind :
    (prefix k v : Bytes) (s : Stored)
    → starts_with prefix k ≡ true
    → In (k, v) s
    → In (k, v) (behind prefix s)
unfolding behind
In-behind prefix k v [] starts i = absurd i
In-behind prefix k v ((j, w) ∷ s) starts (inl e) =
    let same : j ≡ k = ap (λ (p : Bytes × Bytes). p.0) (sym e) in
    let kept : starts_with prefix j ≡ true = ap (starts_with prefix) same ∙ starts in
    rw kept (inl e)
In-behind prefix k v ((j, w) ∷ s) starts (inr i) =
    let later = In-behind prefix k v s starts i in
    elim (Bool-cases (starts_with prefix j)) [ inl e ↦ rw e (inr later) | inr e ↦ rw e later ]

pub memory-LawfulDb : LawfulDb memory
memory-LawfulDb = record {
  get-put = λ k key value s e.
      ap some (lookup-set_entry key value s k) ∙ push (bytes_eq key k) value (lookup k s);
  get-put_failed = λ k key value s e. absurd (cc);
  scan_complete = λ prefix rest value s fine e.
      In-behind prefix (prefix ++ rest) value s
        ((starts_with_iff prefix (prefix ++ rest)).1 (rest, refl))
        (lookup-In (prefix ++ rest) value s
          (let e' : lookup (prefix ++ rest) s ≡ some value = cc in e'));
}
  where
    push :
        (b : Bool) (value : Bytes) (old : Option Bytes)
        → some (if b then some value else old) ≡ (if b then some (some value) else some old)
    push true value old = refl
    push false value old = refl
