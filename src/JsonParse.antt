-- ===== src/JsonParse.antt =====
-- ui/src/body/json-parse-core.ts: parsing that tolerates a body that is cut off. `best_effort` is
-- the parse function of best-effort-json-parser, `none` where it throws.
pub mod Pretty
pub mod Worker
pub mod Documents
pub mod Marked
pub mod Responses
use protospy.Prelude.{
  ℕ, suc, ◌+◌, Bool, true, false, not, Option, none, some, List, [], ◌∷◌, ◌++◌, map, filter, length,
  Text, trim, split_on, if◌then◌else◌,
}
use protospy.Wire.{Value}
use protospy.Runtime.{Runtime, Result, thrown, ok}
use protospy.JsonParse.Pretty.{pretty_text}

-- `TruncatableParseResult`
pub record ParseResult : Type 0 where
  pub parsed : Value
  pub pretty : Text
  pub truncated : Bool

-- `NdjsonParseResult`
pub record NdjsonParseResult : Type 0 where
  pub documents : List Value
  pub truncated_doc_index : Option ℕ

-- an object or an array
unfoldable pub is_structural : Value → Bool
is_structural (Value.arr items) = true
is_structural (Value.obj entries) = true
is_structural _ = false

-- a list or a text without elements
abbrev pub is_nil {ℓ} : {A : Type ℓ} → List A → Bool
is_nil [] = true
is_nil (x ∷ xs) = false

-- the lines that are not blank, trimmed
unfoldable pub lines_of : Text → List Text
unfolding trim split_on
lines_of text = filter (λ line. not (is_nil line)) (map trim (split_on b'\n' text))

module _ (rt : Runtime) (best_effort : Text → Option Value) where
  -- what is recovered where `JSON.parse` throws
  unfoldable pub recover : Text → Option Value
  unfolding is_structural
  recover text = elim (best_effort text) [
    | none ↦ none
    | some v ↦ if is_structural v then some v else none
  ]

  unfoldable pub parse_with_truncation : Text → Result ParseResult
  unfolding recover pretty_text
  parse_with_truncation text = elim (rt.json_parse text) [
    | some v ↦ ok (record { parsed = v; pretty = pretty_text v; truncated = false })
    | none ↦ elim (recover text) [
      | some v ↦ ok (record { parsed = v; pretty = pretty_text v; truncated = true })
      | none ↦ thrown
    ]
  ]

  -- the last line, which `JSON.parse` does not take
  unfoldable pub add_recovered : Result ParseResult → NdjsonParseResult → NdjsonParseResult
  add_recovered thrown r = r
  add_recovered (ok p) r = record {
    documents = r.documents ++ p.parsed ∷ [];
    truncated_doc_index = some (length r.documents);
  }

  -- one line of the loop
  unfoldable pub read_document_line : Text → Bool → NdjsonParseResult → NdjsonParseResult
  unfolding parse_with_truncation add_recovered
  read_document_line line is_last r = elim (rt.json_parse line) [
    | some v ↦ record r { documents = r.documents ++ v ∷ [] }
    | none ↦ if is_last then add_recovered (parse_with_truncation line) r else r
  ]

  unfoldable pub read_lines : List Text → NdjsonParseResult → NdjsonParseResult
  unfolding read_document_line
  read_lines [] r = r
  read_lines (line ∷ lines) r = read_lines lines (read_document_line line (is_nil lines) r)

  unfoldable pub parse_ndjson : Text → NdjsonParseResult
  unfolding lines_of read_lines
  parse_ndjson text =
      read_lines (lines_of text) (record { documents = []; truncated_doc_index = none })
