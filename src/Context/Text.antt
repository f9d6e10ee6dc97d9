-- ===== src/Context/Text.antt =====
-- strings.TrimSpace on UTF-8 bytes.
use sochdb_go.Prelude.{ℕ, [], ◌∷◌, Bool, ◌&&◌, ◌||◌, leb, ◌==◌, if◌then◌else◌}
use sochdb_go.Prelude.Bytes.{Bytes}
use mathlib.Core.List.{reverse}

-- The one-byte spaces, and the encodings of the others, by their bytes.
unfoldable pub is_space1 : ℕ → Bool
is_space1 b = (leb 9 b && leb b 13) || (b == 32)

-- U+0085 and U+00A0
unfoldable pub is_space2 : ℕ → ℕ → Bool
is_space2 a b = (a == 194) && ((b == 133) || (b == 160))

-- U+1680, U+2000 to U+200A, U+2028, U+2029, U+202F, U+205F and U+3000
unfoldable pub is_space3 : ℕ → ℕ → ℕ → Bool
is_space3 a b c =
    ((a == 225) && ((b == 154) && (c == 128)))
    || (((a == 226)
          && ((b == 128)
              && ((leb 128 c && leb c 138) || ((c == 168) || ((c == 169) || (c == 175))))))
        || (((a == 226) && ((b == 129) && (c == 159)))
            || ((a == 227) && ((b == 128) && (c == 128)))))

unfoldable pub trim_left : Bytes → Bytes
trim_left [] = []
trim_left (a ∷ []) = if is_space1 a then [] else a ∷ []
trim_left (a ∷ b ∷ []) =
    let rest = trim_left (b ∷ []) in
    if is_space1 a then rest else if is_space2 a b then [] else a ∷ b ∷ []
trim_left (a ∷ b ∷ c ∷ text) =
    let rest1 = trim_left (b ∷ c ∷ text) in
    let rest2 = trim_left (c ∷ text) in
    let rest3 = trim_left text in
    if is_space1 a
    then rest1
    else if is_space2 a b
    then rest2
    else if is_space3 a b c
    then rest3
    else a ∷ b ∷ c ∷ text

-- The same on a text that is read from its end.
unfoldable pub trim_right_reversed : Bytes → Bytes
trim_right_reversed [] = []
trim_right_reversed (a ∷ []) = if is_space1 a then [] else a ∷ []
trim_right_reversed (b ∷ a ∷ []) =
    let rest = trim_right_reversed (a ∷ []) in
    if is_space1 b then rest else if is_space2 a b then [] else b ∷ a ∷ []
trim_right_reversed (c ∷ b ∷ a ∷ text) =
    let rest1 = trim_right_reversed (b ∷ a ∷ text) in
    let rest2 = trim_right_reversed (a ∷ text) in
    let rest3 = trim_right_reversed text in
    if is_space1 c
    then rest1
    else if is_space2 b c
    then rest2
    else if is_space3 a b c
    then rest3
    else c ∷ b ∷ a ∷ text

unfoldable pub trim_space : Bytes → Bytes
trim_space text = reverse (trim_right_reversed (reverse (trim_left text)))
