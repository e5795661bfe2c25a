-- ===== src/Decode/ContentType.antt =====
-- The tests of ui/src/body/decode.ts on the value of a Content-Type header.
use protospy.Prelude.{
  ℕ, Bool, ◌||◌, Option, none, some, List, [], ◌∷◌, Text, codes, text_eq, to_lower, starts_with,
  ends_with, reverse, trim, trim_start, split_on, first_part, drop, any, not, ◌&&◌, ◌==◌,
  if◌then◌else◌,
}

-- membership in a set of names
unfoldable pub one_of : List Text → Text → Bool
unfolding text_eq
one_of names name = any (λ n. text_eq n name) names

-- `JSONL_TYPES`
abbrev pub jsonl_types : List Text
jsonl_types =
    codes "application/vnd.elasticsearch+x-ndjson"
    ∷ codes "application/x-ndjson"
    ∷ codes "application/ndjson"
    ∷ []

unfoldable pub base_type : Text → Text
unfolding to_lower trim split_on first_part
base_type content_type = to_lower (trim (first_part (split_on b';' content_type)))

unfoldable pub is_jsonl_content_type : Text → Bool
unfolding one_of base_type
is_jsonl_content_type content_type = one_of jsonl_types (base_type content_type)

-- `TEXTUAL_APPLICATION_TYPES`
abbrev pub textual_application_types : List Text
textual_application_types =
    codes "application/csv"
    ∷ codes "application/javascript"
    ∷ codes "application/typescript"
    ∷ codes "application/yaml"
    ∷ codes "application/toml"
    ∷ codes "application/x-www-form-urlencoded"
    ∷ codes "application/graphql"
    ∷ []

unfoldable pub is_textual_content_type : Text → Bool
unfolding one_of base_type starts_with
is_textual_content_type content_type =
    let base = base_type content_type in
    starts_with base (codes "text/") || one_of textual_application_types base

-- `HTML_TYPES`
abbrev pub html_types : List Text
html_types = codes "text/html" ∷ codes "application/xhtml+xml" ∷ []

-- `XML_TYPES`
abbrev pub xml_types : List Text
xml_types =
    codes "text/xml"
    ∷ codes "application/xml"
    ∷ codes "application/soap+xml"
    ∷ codes "application/rss+xml"
    ∷ codes "application/atom+xml"
    ∷ []

unfoldable pub is_html_content_type : Text → Bool
unfolding one_of base_type
is_html_content_type content_type = one_of html_types (base_type content_type)

unfoldable pub is_xml_content_type : Text → Bool
unfolding one_of base_type ends_with
is_xml_content_type content_type =
    let base = base_type content_type in one_of xml_types base || ends_with base (codes "+xml")

-- the group `([^;]+)` of the match, trimmed: what stands before the next semicolon
unfoldable pub parameter_value : Text → Option Text
unfolding first_part split_on trim
parameter_value rest = elim (first_part (split_on b';' rest)) [
  | [] ↦ none
  | (c ∷ part) ↦ some (trim (c ∷ part))
]

-- `\s*=\s*([^;]+)` where the name ends; the blanks before the value are trimmed with it
unfoldable pub after_name : Text → Option Text
unfolding parameter_value
after_name [] = none
after_name (c ∷ rest) = if c == b'=' then parameter_value rest else none

-- the match of the regular expression, at the first place that has one
unfoldable pub find_charset : Text → Option Text
unfolding starts_with to_lower trim_start after_name
find_charset [] = none
find_charset (c ∷ s) =
    let later = find_charset s in
    elim (if starts_with (to_lower (c ∷ s)) (codes "charset")
      then after_name (trim_start (drop 7 (c ∷ s)))
      else none) [ some value ↦ some value | none ↦ later ]

-- the line ends, which `.` does not match
unfoldable pub is_line_end : ℕ → Bool
is_line_end c = c == b'\n' || c == 13 || c == 0x2028 || c == 0x2029

-- the text behind the first quote in reverse, without the quote at its end
unfoldable pub without_last_quote : Text → Option Text
unfolding is_line_end
without_last_quote [] = none
without_last_quote (c ∷ inner) =
    if c == b'"' && not (any is_line_end inner) then some (reverse inner) else none

-- `.replace(/^"(.*)"$/, "$1")`
unfoldable pub strip_quotes : Text → Text
unfolding without_last_quote
strip_quotes [] = []
strip_quotes (c ∷ s) = elim (if c == b'"' then without_last_quote (reverse s) else none) [
  | some inner ↦ inner
  | none ↦ c ∷ s
]

unfoldable pub charset_from_content_type : Option Text → Option Text
unfolding find_charset strip_quotes
charset_from_content_type none = none
charset_from_content_type (some content_type) = elim (find_charset content_type) [
  | none ↦ none
  | some value ↦ some (strip_quotes value)
]
