-- ===== src/Prelude/Bytes.antt =====
-- Byte sequences, which are also Go's strings: equality, order, prefixes, and the fixed-width
-- integers of encoding/binary.
pub mod Order
pub mod Prefix
pub mod Segments
pub mod Endian
use Prim.Native.Nat.{ℕ, ◌<◌}
use Prim.Native.Char.{code}
use Prim.Native.String.{String}
use mathlib.Core.List.{List, [], ◌∷◌}

abbrev pub Bytes : Type 0
Bytes = List ℕ

abbrev pub IsByte : ℕ → Type 0
IsByte b = b < 256

-- The code points of a text: its bytes, if it is ASCII.
abbrev pub codes : String → Bytes
codes String.[] = []
codes (String.◌∷◌ c s) = code c ∷ codes s
