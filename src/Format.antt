-- ===== src/Format.antt =====
-- The output formats of format.go: their names and the conversions between them.
mod Laws
mod Tests
use sochdb_go.Prelude.{ℕ, Bool, true, false, ◌&&◌, ◌||◌, Option, none, some, if◌then◌else◌}
use sochdb_go.Prelude.Int.{ℤ}
use sochdb_go.Prelude.Result.{Result, ok, err}
use sochdb_go.Prelude.Bytes.{Bytes, codes}
use sochdb_go.Prelude.Bytes.Order.{bytes_eq}

-- Go's formats are ints: `other_wire` and `other_context` hold the numbers that name no format.
pub data WireFormat : Type 0 where
  wire_toon wire_json wire_columnar : WireFormat
  other_wire : ℤ → WireFormat

pub data ContextFormat : Type 0 where
  context_toon context_json context_markdown : ContextFormat
  other_context : ℤ → ContextFormat

-- What was to be parsed, and as which format.
pub data FormatConversionError : Type 0 where
  unknown_wire_format unknown_context_format : Bytes → FormatConversionError

unfoldable pub wire_string : WireFormat → Bytes
wire_string wire_toon = codes "toon"
wire_string wire_json = codes "json"
wire_string wire_columnar = codes "columnar"
wire_string (other_wire n) = codes "unknown"

unfoldable pub parse_wire_format : Bytes → Result FormatConversionError WireFormat
parse_wire_format s =
    if bytes_eq s (codes "toon")
    then ok wire_toon
    else if bytes_eq s (codes "json")
    then ok wire_json
    else if bytes_eq s (codes "columnar") || bytes_eq s (codes "column")
    then ok wire_columnar
    else err (unknown_wire_format s)

unfoldable pub context_string : ContextFormat → Bytes
context_string context_toon = codes "toon"
context_string context_json = codes "json"
context_string context_markdown = codes "markdown"
context_string (other_context n) = codes "unknown"

unfoldable pub parse_context_format : Bytes → Result FormatConversionError ContextFormat
parse_context_format s =
    if bytes_eq s (codes "toon")
    then ok context_toon
    else if bytes_eq s (codes "json")
    then ok context_json
    else if bytes_eq s (codes "markdown") || bytes_eq s (codes "md")
    then ok context_markdown
    else err (unknown_context_format s)

unfoldable pub wire_to_context : WireFormat → Option ContextFormat
wire_to_context wire_toon = some context_toon
wire_to_context wire_json = some context_json
wire_to_context wire_columnar = none
wire_to_context (other_wire n) = none

unfoldable pub context_to_wire : ContextFormat → Option WireFormat
context_to_wire context_toon = some wire_toon
context_to_wire context_json = some wire_json
context_to_wire context_markdown = none
context_to_wire (other_context n) = none

unfoldable pub is_wire_toon : WireFormat → Bool
is_wire_toon wire_toon = true
is_wire_toon _ = false

unfoldable pub is_wire_json : WireFormat → Bool
is_wire_json wire_json = true
is_wire_json _ = false

unfoldable pub is_context_toon : ContextFormat → Bool
is_context_toon context_toon = true
is_context_toon _ = false

unfoldable pub is_context_json : ContextFormat → Bool
is_context_json context_json = true
is_context_json _ = false

unfoldable pub supports_round_trip : WireFormat → Bool
supports_round_trip fmt = is_wire_toon fmt || is_wire_json fmt

unfoldable pub supports_round_trip_conversion : WireFormat → ContextFormat → Bool
supports_round_trip_conversion wire ctx =
    (is_wire_toon wire && is_context_toon ctx) || (is_wire_json wire && is_context_json ctx)
