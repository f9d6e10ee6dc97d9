-- ===== src/Format/Tests.antt =====
-- The theorems on formats, at concrete formats.
use sochdb_go.Prelude.{◌≡◌, true, some, ◌↔◌, ◌⊎◌}
use sochdb_go.Prelude.Result.{ok}
use sochdb_go.Prelude.Bytes.{codes}
use sochdb_go.Format.{
  wire_toon, wire_json, wire_columnar, ContextFormat, context_toon, context_json, context_markdown,
  wire_string, parse_wire_format, context_string, parse_context_format, wire_to_context,
  context_to_wire, supports_round_trip, supports_round_trip_conversion,
}
use sochdb_go.Format.Laws.{parse_wire_format_iff, parse_context_format_iff, conversion_iff}

column_test : (parse_wire_format (codes "column") ≡ ok wire_columnar) ↔ (
    ((codes "column" ≡ wire_string wire_columnar)
      × ((wire_columnar ≡ wire_toon)
          ⊎ ((wire_columnar ≡ wire_json) ⊎ (wire_columnar ≡ wire_columnar))))
    ⊎ ((codes "column" ≡ codes "column") × (wire_columnar ≡ wire_columnar)))
column_test = parse_wire_format_iff (codes "column") wire_columnar

json_test : (parse_context_format (codes "json") ≡ ok context_json) ↔ (
    ((codes "json" ≡ context_string context_json)
      × ((context_json ≡ context_toon)
          ⊎ ((context_json ≡ context_json) ⊎ (context_json ≡ context_markdown))))
    ⊎ ((codes "json" ≡ codes "md") × (context_json ≡ context_markdown)))
json_test = parse_context_format_iff (codes "json") context_json

conversion_iff_test :
    ((wire_to_context wire_json ≡ some context_toon)
      ↔ (context_to_wire context_toon ≡ some wire_json))
    × ((wire_to_context wire_json ≡ some context_toon)
        ↔ (supports_round_trip_conversion wire_json context_toon ≡ true))
    × ((supports_round_trip wire_json ≡ true)
        ↔ ((ctx : ContextFormat) × (supports_round_trip_conversion wire_json ctx ≡ true)))
conversion_iff_test = conversion_iff wire_json context_toon
