-- ===== src/JsonTree/Rows/Quote.antt =====
-- `JSON.stringify` on strings and natural numbers, and `formatPath` of
-- ui/src/components/json-tree/model.ts.
use protospy.Prelude.{
  ℕ, zero, suc, ◌+◌, ◌-◌, ◌/◌, ◌%◌, Bool, true, false, ◌&&◌, ◌||◌, List, [], ◌∷◌, ◌++◌, Text, codes,
  leb, ltb, ◌==◌, if◌then◌else◌,
}
use protospy.JsonTree.Model.{PathSegment, key, index}

-- a hexadecimal digit, in lower case
unfoldable pub hex_digit : ℕ → ℕ
hex_digit d = if ltb d 10 then b'0' + d else b'a' + (d - 10)

unfoldable pub unicode_escape : ℕ → Text
unfolding hex_digit
unicode_escape c =
    b'\\'
    ∷ b'u'
    ∷ hex_digit (c / 4096 % 16)
    ∷ hex_digit (c / 256 % 16)
    ∷ hex_digit (c / 16 % 16)
    ∷ hex_digit (c % 16)
    ∷ []

unfoldable pub is_lead_surrogate : ℕ → Bool
is_lead_surrogate c = leb 0xd800 c && leb c 0xdbff

unfoldable pub is_trail_surrogate : ℕ → Bool
is_trail_surrogate c = leb 0xdc00 c && leb c 0xdfff

-- one code unit that is no surrogate
unfoldable pub quote_plain : ℕ → Text
unfolding unicode_escape
quote_plain c =
    if c == b'"' || c == b'\\'
    then b'\\' ∷ c ∷ []
    else if c == 8
    then codes "\\b"
    else if c == 9
    then codes "\\t"
    else if c == 10
    then codes "\\n"
    else if c == 12
    then codes "\\f"
    else if c == 13
    then codes "\\r"
    else if ltb c 32
    then unicode_escape c
    else c ∷ []

unfoldable pub quote_unit : ℕ → Text
unfolding quote_plain is_lead_surrogate is_trail_surrogate
quote_unit c =
    if is_lead_surrogate c || is_trail_surrogate c then unicode_escape c else quote_plain c

-- the units of a string; a surrogate pair stays as it is, a lone surrogate is escaped
unfoldable pub quote_units : Text → Text
unfolding quote_unit
quote_units [] = []
quote_units (c ∷ []) = quote_unit c
quote_units (c ∷ d ∷ s) = elim (is_lead_surrogate c && is_trail_surrogate d) [
  | true ↦ c ∷ d ∷ quote_units s
  | false ↦ quote_unit c ++ quote_units (d ∷ s)
]

-- `JSON.stringify(s)`
unfoldable pub quote : Text → Text
unfolding quote_units
quote s = b'"' ∷ (quote_units s ++ b'"' ∷ [])

unfoldable pub decimal_digits : ℕ → ℕ → Text
decimal_digits zero n = []
decimal_digits (suc fuel) n =
    let rest = decimal_digits fuel (n / 10) in
    if ltb n 10 then (b'0' + n) ∷ [] else rest ++ (b'0' + n % 10) ∷ []

-- `String(n)` for a natural number; the digits are at most `n + 1`
unfoldable pub decimal : ℕ → Text
unfolding decimal_digits
decimal n = decimal_digits (suc n) n

unfoldable pub is_identifier_start : ℕ → Bool
is_identifier_start c =
    (leb b'A' c && leb c b'Z') || (leb b'a' c && leb c b'z') || c == b'_' || c == b'$'

unfoldable pub are_identifier_parts : Text → Bool
unfolding is_identifier_start
are_identifier_parts [] = true
are_identifier_parts (c ∷ s) =
    (is_identifier_start c || (leb b'0' c && leb c b'9')) && are_identifier_parts s

-- `IDENTIFIER_RE.test(s)`
unfoldable pub is_identifier : Text → Bool
unfolding are_identifier_parts
is_identifier [] = false
is_identifier (c ∷ s) = is_identifier_start c && are_identifier_parts s

unfoldable pub format_segment : PathSegment → Text
unfolding decimal is_identifier quote
format_segment (index i) = codes "[" ++ decimal i ++ codes "]"
format_segment (key k) =
    if is_identifier k then codes "." ++ k else codes "[" ++ quote k ++ codes "]"

unfoldable pub format_segments : List PathSegment → Text
unfolding format_segment
format_segments [] = []
format_segments (seg ∷ path) = format_segment seg ++ format_segments path

-- `formatPath`
unfoldable pub format_path : List PathSegment → Text
unfolding format_segments
format_path path = codes "$" ++ format_segments path
