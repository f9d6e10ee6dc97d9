-- ===== src/Format/Laws.antt =====
-- Names are read back, and the conversions agree with the capability tests.
use sochdb_go.Prelude.{◌≡◌, refl, arith, true, some, ◌↔◌, ◌⊎◌}
use sochdb_go.Prelude.Result.{ok}
use sochdb_go.Prelude.Bytes.{Bytes, codes}
use sochdb_go.Prelude.Bytes.Order.{bytes_eq_iff}
use sochdb_go.Format.{
  WireFormat, wire_toon, wire_json, wire_columnar, other_wire, ContextFormat, context_toon,
  context_json, context_markdown, wire_string, parse_wire_format, context_string,
  parse_context_format, wire_to_context, context_to_wire, is_wire_toon, is_wire_json,
  is_context_toon, is_context_json, supports_round_trip, supports_round_trip_conversion,
}

-- A text is parsed to a wire format exactly if it is the format's name and the format is one of the
-- three, or it is "column" and the format is columnar.
pub parse_wire_format_iff :
    (s : Bytes) (f : WireFormat)
    → (parse_wire_format s ≡ ok f) ↔ (
        ((s ≡ wire_string f) × ((f ≡ wire_toon) ⊎ ((f ≡ wire_json) ⊎ (f ≡ wire_columnar))))
        ⊎ ((s ≡ codes "column") × (f ≡ wire_columnar)))
unfolding parse_wire_format wire_string
parse_wire_format_iff s f = ground (
  arith,
  bytes_eq_iff s (codes "toon"),
  bytes_eq_iff s (codes "json"),
  bytes_eq_iff s (codes "columnar"),
  bytes_eq_iff s (codes "column"),
)

-- A text is parsed to a context format exactly if it is the format's name and the format is one of
-- the three, or it is "md" and the format is Markdown.
pub parse_context_format_iff :
    (s : Bytes) (f : ContextFormat)
    → (parse_context_format s ≡ ok f) ↔ (
        ((s ≡ context_string f)
          × ((f ≡ context_toon) ⊎ ((f ≡ context_json) ⊎ (f ≡ context_markdown))))
        ⊎ ((s ≡ codes "md") × (f ≡ context_markdown)))
unfolding parse_context_format context_string
parse_context_format_iff s f = ground (
  arith,
  bytes_eq_iff s (codes "toon"),
  bytes_eq_iff s (codes "json"),
  bytes_eq_iff s (codes "markdown"),
  bytes_eq_iff s (codes "md"),
)

-- The conversions are inverse to each other, and SupportsRoundTripConversion is the test of whether
-- they relate two formats.
pub conversion_iff :
    (wire : WireFormat) (ctx : ContextFormat)
    → ((wire_to_context wire ≡ some ctx) ↔ (context_to_wire ctx ≡ some wire))
      × ((wire_to_context wire ≡ some ctx) ↔ (supports_round_trip_conversion wire ctx ≡ true))
      × ((supports_round_trip wire ≡ true)
          ↔ ((ctx' : ContextFormat) × (supports_round_trip_conversion wire ctx' ≡ true)))
unfolding wire_to_context context_to_wire is_wire_toon is_wire_json is_context_toon is_context_json
    supports_round_trip supports_round_trip_conversion
conversion_iff wire_toon ctx =
    (ground arith, ground arith, ((λ _. (context_toon, refl)), (λ _. refl)))
conversion_iff wire_json ctx =
    (ground arith, ground arith, ((λ _. (context_json, refl)), (λ _. refl)))
conversion_iff wire_columnar ctx = (ground arith, ground arith, ground arith)
conversion_iff (other_wire n) ctx = (ground arith, ground arith, ground arith)
