-- ===== src/MemorySystem/Tests/Consolidating.antt =====
-- A consolidation of three assertions.
use sochdb_go.Prelude.{
  inl, In, ℕ, ◌≡◌, ◌↔◌, ◌⊎◌, refl, List, [], ◌∷◌, ◌++◌, true, false, Option, none, some,
}
use sochdb_go.Prelude.Int.{pos}
use sochdb_go.Prelude.Bytes.{Bytes, codes}
use sochdb_go.Prelude.Bytes.Order.{bytes_eq}
use sochdb_go.Prelude.Maps.{lookup}
use sochdb_go.MemorySystem.{Fields, RawAssertion, ConsolidationConfig}
use sochdb_go.MemorySystem.Memory.{Stored, memory, memory-LawfulDb}
use sochdb_go.MemorySystem.Scoring.Sorter.{whole_reals}
use sochdb_go.MemorySystem.Consolidation.{
  ConsolidationEnv, Consolidator, new_consolidator, canonical_key, generate_canonical_id,
  bytes_or_nil, holds, is_contradicted,
}
use sochdb_go.MemorySystem.Consolidation.Stored.{
  get_all_assertions, get_contradictions, consolidate,
}
use sochdb_go.MemorySystem.Consolidation.Contradictions.{First, is_contradicted_iff}
use sochdb_go.MemorySystem.Consolidation.Writes.{LawfulWrites, Canonical, consolidate_writes}
use sochdb_go.MemorySystem.Consolidation.Covers.{consolidate_covers}
use sochdb_go.MemorySystem.Tests.{Value, text, number, text_in, number_in}

abbrev about : Bytes → RawAssertion ℕ Value
about id = record {
  id = id;
  fact = some ((codes "city", text (codes "Ulm")) ∷ []);
  source = id;
  confidence = 2;
  timestamp = pos 7;
}

abbrev city : Option Value → Option Bytes
city none = none
city (some v) = text_in v

abbrev city_of : Fields Value → Option Bytes
city_of none = none
city_of (some fields) = city (lookup (codes "city") fields)

-- An assertion is stored as its id, a contradiction as the id it is about, and a canonical fact as the
-- sources it has.
abbrev consolidation : ConsolidationEnv ℕ Value
consolidation = record {
  reals = whole_reals;
  as_text = text_in;
  as_real = number_in;
  int_of = pos;
  sha256_hex = λ b. b;
  marshal_fact = city_of;
  marshal_raw = λ a. some a.id;
  unmarshal_raw = λ b. some (about b);
  marshal_contradiction = λ from to time. some from;
  unmarshal_contradiction =
      λ b. some (some ((codes "from", text b) ∷ (codes "timestamp", number 900) ∷ []));
  marshal_canonical = λ fact. some (concat fact.sources);
  unmarshal_canonical = λ b. none;
  range_groups = λ m. m;
  sort_group = λ l. l;
  sort_times = λ l. l;
}
  where
    concat : List Bytes → Bytes
    concat [] = []
    concat (b ∷ l) = b ++ concat l

abbrev ages : ConsolidationConfig ℕ
ages = record { similarity_threshold = 1; use_temporal_updates = true; max_conflict_age = pos 100 }

abbrev consolidator : Consolidator ℕ
consolidator = new_consolidator ages (codes "n") none

abbrev marked_at : ℕ → Fields Value
marked_at time = some ((codes "from", text (codes "a")) ∷ (codes "timestamp", number time) ∷ [])

-- The first contradiction is too old, the second would hold.
abbrev old_and_new : List (Fields Value)
old_and_new = marked_at 100 ∷ marked_at 900 ∷ []

is_contradicted_iff_example :
    (is_contradicted consolidation ages (pos 950) old_and_new (codes "a") ≡ true) ↔ (
      (cont : Fields Value) × First consolidation ages (pos 950) old_and_new (codes "a") cont
      × (holds consolidation ages (pos 950) cont ≡ true))
is_contradicted_iff_example =
    is_contradicted_iff consolidation ages (pos 950) old_and_new (codes "a")

hidden : is_contradicted consolidation ages (pos 950) old_and_new (codes "a") ≡ false
unfolding bytes_eq sochdb_go.Prelude.Maps.lookup sochdb_go.MemorySystem.Consolidation.names
    sochdb_go.MemorySystem.Consolidation.holds sochdb_go.MemorySystem.Consolidation.is_contradicted
    sochdb_go.Overlay.Traces.sub_i64 sochdb_go.Prelude.Int.of_u64 sochdb_go.Prelude.Int.to_u64
hidden = refl

lawful_writes : LawfulWrites consolidation memory
lawful_writes = record { In-range = λ e m i. i; In-sort = λ a l i. i; stored = memory-LawfulDb }

-- Three assertions, the second of which is contradicted by the third.
abbrev stored_assertions : Stored
stored_assertions =
    (codes "consolidation:n:assertion:a", codes "a")
    ∷ (codes "consolidation:n:assertion:b", codes "b")
    ∷ (codes "consolidation:n:contradiction:b:c", codes "b")
    ∷ (codes "consolidation:n:assertion:c", codes "c")
    ∷ []

abbrev canonical : Bytes
canonical = codes "consolidation:n:canonical:Ulm"

consolidated :
    memory.get canonical
      (consolidate consolidation memory (pos 950) consolidator stored_assertions).1
    ≡ some (some (codes "ac"))
unfolding bytes_eq sochdb_go.Prelude.Maps.lookup sochdb_go.Prelude.Maps.set_entry
    sochdb_go.MemorySystem.starts_with sochdb_go.MemorySystem.read_values
    sochdb_go.MemorySystem.Memory.behind sochdb_go.MemorySystem.Consolidation.new_consolidator
    sochdb_go.MemorySystem.Consolidation.assertion_key
    sochdb_go.MemorySystem.Consolidation.canonical_key
    sochdb_go.MemorySystem.Consolidation.generate_canonical_id
    sochdb_go.MemorySystem.Consolidation.group_by_fact sochdb_go.MemorySystem.Consolidation.names
    sochdb_go.MemorySystem.Consolidation.holds sochdb_go.MemorySystem.Consolidation.is_contradicted
    sochdb_go.MemorySystem.Consolidation.valid_assertions
    sochdb_go.MemorySystem.Consolidation.canonical_fact
    sochdb_go.MemorySystem.Consolidation.Stored.get_all_assertions
    sochdb_go.MemorySystem.Consolidation.Stored.get_contradictions
    sochdb_go.MemorySystem.Consolidation.Stored.store_canonical
    sochdb_go.MemorySystem.Consolidation.Stored.store_group
    sochdb_go.MemorySystem.Consolidation.Stored.store_groups
    sochdb_go.MemorySystem.Consolidation.Stored.consolidate sochdb_go.Overlay.Traces.sub_i64
    sochdb_go.Prelude.Int.of_u64 sochdb_go.Prelude.Int.to_u64
consolidated = refl

consolidate_writes_example :
    (memory.get canonical
        (consolidate consolidation memory (pos 950) consolidator stored_assertions).1
      ≡ memory.get canonical stored_assertions)
    ⊎ ((value : Bytes) × (memory.get canonical
            (consolidate consolidation memory (pos 950) consolidator stored_assertions).1
          ≡ some (some value))
        × Canonical consolidation memory
            (pos 950)
            consolidator
            (get_contradictions consolidation memory consolidator stored_assertions)
            (get_all_assertions consolidation memory consolidator stored_assertions)
            canonical
            value)
consolidate_writes_example =
    consolidate_writes consolidation memory lawful_writes (pos 950) consolidator stored_assertions
      canonical

a_listed :
    In (about (codes "a")) (get_all_assertions consolidation memory consolidator stored_assertions)
unfolding bytes_eq sochdb_go.Prelude.Maps.lookup sochdb_go.Prelude.Maps.set_entry
    sochdb_go.MemorySystem.starts_with sochdb_go.MemorySystem.read_values
    sochdb_go.MemorySystem.Memory.behind sochdb_go.MemorySystem.Consolidation.new_consolidator
    sochdb_go.MemorySystem.Consolidation.assertion_key
    sochdb_go.MemorySystem.Consolidation.canonical_key
    sochdb_go.MemorySystem.Consolidation.generate_canonical_id
    sochdb_go.MemorySystem.Consolidation.group_by_fact sochdb_go.MemorySystem.Consolidation.names
    sochdb_go.MemorySystem.Consolidation.holds sochdb_go.MemorySystem.Consolidation.is_contradicted
    sochdb_go.MemorySystem.Consolidation.valid_assertions
    sochdb_go.MemorySystem.Consolidation.canonical_fact
    sochdb_go.MemorySystem.Consolidation.Stored.get_all_assertions
    sochdb_go.MemorySystem.Consolidation.Stored.get_contradictions
    sochdb_go.MemorySystem.Consolidation.Stored.store_canonical
    sochdb_go.MemorySystem.Consolidation.Stored.store_group
    sochdb_go.MemorySystem.Consolidation.Stored.store_groups
    sochdb_go.MemorySystem.Consolidation.Stored.consolidate sochdb_go.Overlay.Traces.sub_i64
    sochdb_go.Prelude.Int.of_u64 sochdb_go.Prelude.Int.to_u64
a_listed = inl refl

a_uncontradicted :
    is_contradicted consolidation consolidator.config
      (pos 950)
      (get_contradictions consolidation memory consolidator stored_assertions)
      (codes "a")
    ≡ false
unfolding bytes_eq sochdb_go.Prelude.Maps.lookup sochdb_go.Prelude.Maps.set_entry
    sochdb_go.MemorySystem.starts_with sochdb_go.MemorySystem.read_values
    sochdb_go.MemorySystem.Memory.behind sochdb_go.MemorySystem.Consolidation.new_consolidator
    sochdb_go.MemorySystem.Consolidation.assertion_key
    sochdb_go.MemorySystem.Consolidation.canonical_key
    sochdb_go.MemorySystem.Consolidation.generate_canonical_id
    sochdb_go.MemorySystem.Consolidation.group_by_fact sochdb_go.MemorySystem.Consolidation.names
    sochdb_go.MemorySystem.Consolidation.holds sochdb_go.MemorySystem.Consolidation.is_contradicted
    sochdb_go.MemorySystem.Consolidation.valid_assertions
    sochdb_go.MemorySystem.Consolidation.canonical_fact
    sochdb_go.MemorySystem.Consolidation.Stored.get_all_assertions
    sochdb_go.MemorySystem.Consolidation.Stored.get_contradictions
    sochdb_go.MemorySystem.Consolidation.Stored.store_canonical
    sochdb_go.MemorySystem.Consolidation.Stored.store_group
    sochdb_go.MemorySystem.Consolidation.Stored.store_groups
    sochdb_go.MemorySystem.Consolidation.Stored.consolidate sochdb_go.Overlay.Traces.sub_i64
    sochdb_go.Prelude.Int.of_u64 sochdb_go.Prelude.Int.to_u64
a_uncontradicted = refl

consolidate_covers_example :
    (value : Bytes) × (memory.get
        (canonical_key consolidator (generate_canonical_id consolidation (about (codes "a"))))
        (consolidate consolidation memory (pos 950) consolidator stored_assertions).1
      ≡ some (some value))
    × Canonical consolidation memory
        (pos 950)
        consolidator
        (get_contradictions consolidation memory consolidator stored_assertions)
        (get_all_assertions consolidation memory consolidator stored_assertions)
        (canonical_key consolidator (generate_canonical_id consolidation (about (codes "a"))))
        value
unfolding lookup bytes_eq
consolidate_covers_example =
    consolidate_covers consolidation memory lawful_writes (λ e m i. i) (λ a l i. i)
      (λ key value s. refl) (λ fact. (bytes_or_nil (consolidation.marshal_canonical fact), refl))
      (pos 950) consolidator stored_assertions (about (codes "a")) (codes "Ulm") a_listed
      a_uncontradicted refl
