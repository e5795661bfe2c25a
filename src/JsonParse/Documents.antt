-- ===== src/JsonParse/Documents.antt =====
-- What `parseNdjson` of ui/src/body/json-parse-core.ts returns for the lines of a body.
use protospy.Prelude.{
  ◌≡◌, refl, sym, ap, ◌∙◌, Bool, true, false, Option, none, some, List, [], ◌∷◌, ◌++◌, append_assoc,
  append-nil, length, Text, Option-cases, inl, inr,
}
use protospy.Wire.{Value}
use protospy.Runtime.{Runtime}
use protospy.JsonParse.{
  NdjsonParseResult, lines_of, recover, parse_with_truncation, add_recovered, read_document_line,
  read_lines, parse_ndjson,
}

-- The documents, and one that was recovered at their end.
abbrev pub with_recovered : List Value → Option Value → NdjsonParseResult
with_recovered docs none = record { documents = docs; truncated_doc_index = none }
with_recovered docs (some v) = record {
  documents = docs ++ v ∷ [];
  truncated_doc_index = some (length docs);
}

abbrev pub prepend : Option Value → List Value → List Value
prepend none docs = docs
prepend (some v) docs = v ∷ docs

module _ (rt : Runtime) (best_effort : Text → Option Value) where
  -- The values of the lines that `JSON.parse` takes.
  unfoldable pub parsed_lines : List Text → List Value
  parsed_lines [] = []
  parsed_lines (line ∷ lines) = prepend (rt.json_parse line) (parsed_lines lines)

  -- What is recovered of the last line, where `JSON.parse` does not take it.
  unfoldable pub recovered_line : List Text → Option Value
  unfolding recover
  recovered_line [] = none
  recovered_line (line ∷ []) = elim (rt.json_parse line) [
    | some v ↦ none
    | none ↦ recover rt best_effort line
  ]
  recovered_line (line ∷ next ∷ lines) = recovered_line (next ∷ lines)

  read_document_line_good :
      (line : Text) (last : Bool) (docs : List Value) (v : Value)
      → rt.json_parse line ≡ some v
      → read_document_line rt best_effort line last (with_recovered docs none)
        ≡ with_recovered (docs ++ v ∷ []) none
  unfolding read_document_line
  read_document_line_good line last docs v good = rw (good, read_document_line) refl

  read_document_line_bad :
      (line : Text) (docs : List Value)
      → rt.json_parse line ≡ none
      → read_document_line rt best_effort line false (with_recovered docs none)
        ≡ with_recovered docs none
  unfolding read_document_line
  read_document_line_bad line docs bad = rw (bad, read_document_line) refl

  read_document_line_last :
      (line : Text) (docs : List Value)
      → rt.json_parse line ≡ none
      → read_document_line rt best_effort line true (with_recovered docs none)
        ≡ with_recovered docs (recover rt best_effort line)
  unfolding read_document_line parse_with_truncation
  read_document_line_last line docs bad = elim (Option-cases (recover rt best_effort line)) [
    | inl lost ↦ rw (read_document_line, bad, parse_with_truncation, bad, lost, add_recovered) refl
    | inr (v, found) ↦
        rw (read_document_line, bad, parse_with_truncation, bad, found, add_recovered) refl
  ]

  read_lines_lem :
      (lines : List Text) (docs : List Value)
      → read_lines rt best_effort lines (record { documents = docs; truncated_doc_index = none })
        ≡ with_recovered (docs ++ parsed_lines lines) (recovered_line lines)
  unfolding read_lines parsed_lines recovered_line
  read_lines_lem [] docs = ap (λ ds. with_recovered ds none) (sym (append-nil docs))
  read_lines_lem (line ∷ []) docs = elim (Option-cases (rt.json_parse line)) [
    | inl bad ↦
        rw (read_document_line_last line docs bad, bad, recovered_line, append-nil docs) refl
    | inr (v, good) ↦ rw (read_document_line_good line true docs v good, good, recovered_line) refl
  ]
  read_lines_lem (line ∷ next ∷ lines) docs = elim (Option-cases (rt.json_parse line)) [
    | inl bad ↦
        rw (read_document_line_bad line docs bad, bad, recovered_line)
          (read_lines_lem (next ∷ lines) docs)
    | inr (v, good) ↦
        rw (read_document_line_good line false docs v good, good, recovered_line)
          (read_lines_lem (next ∷ lines) (docs ++ v ∷ [])
            ∙ ap (λ ds. with_recovered ds (recovered_line (next ∷ lines)))
                (append_assoc docs (v ∷ []) (parsed_lines (next ∷ lines))))
  ]

  -- The documents are the values of the lines that `JSON.parse` takes, in their order, and behind
  -- them the value recovered of the last line where `JSON.parse` does not take it; the index is
  -- that of the recovered document, and absent where there is none.
  pub parse_ndjson_lem :
      (text : Text)
      → parse_ndjson rt best_effort text
        ≡ with_recovered (parsed_lines (lines_of text)) (recovered_line (lines_of text))
  unfolding parse_ndjson
  parse_ndjson_lem text = read_lines_lem (lines_of text) []
