-- ===== src/Wire/Entries/Safety.antt =====
-- The parsers do not index out of range.
use sochdb_go.Prelude.{ℕ, zero, suc, refl, ◌≢◌, arith}
use sochdb_go.Prelude.Bytes.{Bytes}
use sochdb_go.Wire.Entries.{
  Parsed, done, failed, panic, ◌>>=◌, slice, need, parse_entry, parse_entries, parse_response,
}

parse_entry-ne-panic :
    (width : ℕ) (payload : Bytes) (offset : ℕ) → parse_entry width payload offset ≢ panic
unfolding parse_entry slice need
parse_entry-ne-panic width payload offset = ground arith

bind-ne-panic :
    {A B : Type 0} (first : Parsed A) (next : A → Parsed B)
    → first ≢ panic
    → ((a : A) → next a ≢ panic)
    → (first >>= next) ≢ panic
bind-ne-panic panic next h k = absurd (h refl)
bind-ne-panic (failed e) next h k = λ p. cc
bind-ne-panic (done a) next h k = k a

parse_entries-ne-panic :
    (width count : ℕ) (payload : Bytes) (offset : ℕ)
    → parse_entries width count payload offset ≢ panic
unfolding parse_entries
parse_entries-ne-panic width zero payload offset = λ p. cc
parse_entries-ne-panic width (suc count) payload offset =
    bind-ne-panic (parse_entry width payload offset) _ (parse_entry-ne-panic width payload offset)
      (λ (entry, offset').
        bind-ne-panic (parse_entries width count payload offset') _
          (parse_entries-ne-panic width count payload offset') (λ rest p. cc))

-- No payload of a response makes the parser index out of range, at either width of a key length.
pub parse_response-ne-panic : (width : ℕ) (payload : Bytes) → parse_response width payload ≢ panic
unfolding parse_response slice
parse_response-ne-panic width payload = grind (arith, parse_entries-ne-panic)
