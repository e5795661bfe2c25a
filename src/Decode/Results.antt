-- ===== src/Decode/Results.antt =====
-- What `decodeBody` of ui/src/body/decode.ts returns.
use protospy.Prelude.{
  ◌≡◌, refl, sym, ap, ◌∙◌, Option, none, some, List, ◌∷◌, Text, codes, join, map,
}
use protospy.Wire.{Value}
use protospy.Runtime.{Runtime, Result, thrown, ok, ok_injective, steps_return}
use protospy.Body.ViewModes.{ContentKind, json, ndjson, html, xml, image}
use protospy.JsonParse.{ParseResult, parse_with_truncation, parse_ndjson}
use protospy.JsonParse.Pretty.{pretty_text}
use protospy.JsonParse.Worker.{OutMessage, build_json, build_ndjson, json_response, ndjson_response}
use protospy.JsonParse.Responses.{some_documents_lem}
use protospy.Markup.{MarkupLine, MarkupKind, MarkupFormatResult, MarkupLibraries}
use protospy.Decode.Branches.{classify_elim}
use protospy.Decode.Outcomes.{
  DecodeResult, Decoded, plain_result, text_result, not_null, ndjson_result, json_result,
  kind_of_markup, markup_result,
}
use protospy.Decode.Steps.{program_workers, classify}

-- No property of a parsed body is set.
pub record HasNoJson (r : DecodeResult) : Type 0 where
  no_parsed : r.parsed ≡ none
  no_documents : r.documents ≡ none
  no_rows : r.initial_rows ≡ none
  no_expanded : r.initial_expanded ≡ none
  not_truncated : r.truncated ≡ none

-- A body with a JSON content type: what was parsed of its text.
pub record IsJson (rt : Runtime) (best_effort : Text → Option Value) (r : DecodeResult)
    : Type 0 where
  answer : ParseResult
  parsed_text : parse_with_truncation rt best_effort r.raw_text ≡ ok answer
  parsed_value : r.parsed ≡ not_null (some answer.parsed)
  pretty : r.text ≡ some answer.pretty
  cut_off : r.truncated ≡ some answer.truncated
  no_documents : r.documents ≡ none
  no_lines : r.lines ≡ none

-- A body of documents, of which there is one at least.
pub record IsNdjson (rt : Runtime) (best_effort : Text → Option Value) (r : DecodeResult)
    : Type 0 where
  first : Value
  others : List Value
  parsed_text : (parse_ndjson rt best_effort r.raw_text).documents ≡ first ∷ others
  documents : r.documents ≡ some (first ∷ others)
  pretty : r.text ≡ some (join (codes "\n\n") (map pretty_text (first ∷ others)))
  no_parsed : r.parsed ≡ none
  no_lines : r.lines ≡ none

pub record IsPlain (r : DecodeResult) (shown : Option Text) : Type 0 where
  no_json : HasNoJson r
  no_lines : r.lines ≡ none
  text : r.text ≡ shown

pub record IsMarkup (r : DecodeResult) : Type 0 where
  no_json : HasNoJson r
  shown : Text
  text : r.text ≡ some shown

-- Which properties are set, by the kind.
abbrev pub IsSetFor : Runtime → (Text → Option Value) → DecodeResult → ContentKind → Type 0
IsSetFor rt best_effort r json = IsJson rt best_effort r
IsSetFor rt best_effort r ndjson = IsNdjson rt best_effort r
IsSetFor rt best_effort r html = IsMarkup r
IsSetFor rt best_effort r xml = IsMarkup r
IsSetFor rt best_effort r image = IsPlain r none
IsSetFor rt best_effort r ContentKind.text = IsPlain r (some r.raw_text)
IsSetFor rt best_effort r ContentKind.binary = IsPlain r none

module _ (rt : Runtime) (best_effort : Text → Option Value) (d : Decoded) where
  -- What a result adds to the shared properties is its text and its lines.
  with_text-HasNoJson :
      (kind : ContentKind) (shown : Option Text) (lines : Option (List MarkupLine))
      → HasNoJson (record (plain_result d kind) { text = shown; lines = lines })
  unfolding plain_result
  with_text-HasNoJson kind shown lines = record {
    no_parsed = refl;
    no_documents = refl;
    no_rows = refl;
    no_expanded = refl;
    not_truncated = refl;
  }

  with_text-IsPlain :
      (kind : ContentKind) (shown : Option Text)
      → IsPlain (record (plain_result d kind) { text = shown }) shown
  unfolding plain_result
  with_text-IsPlain kind shown = record {
    no_json = with_text-HasNoJson kind shown none;
    no_lines = refl;
    text = refl;
  }

  markup_result-IsMarkup :
      (kind : MarkupKind) (r : Result MarkupFormatResult) → IsMarkup (markup_result d kind r)
  unfolding markup_result plain_result
  markup_result-IsMarkup kind thrown = record {
    no_json = with_text-HasNoJson (kind_of_markup kind) (some d.text) none;
    shown = d.text;
    text = refl;
  }
  markup_result-IsMarkup kind (ok r) = record {
    no_json = with_text-HasNoJson (kind_of_markup kind) (some r.formatted_text) (some r.lines);
    shown = r.formatted_text;
    text = refl;
  }

  json_result-IsJson :
      (m : OutMessage)
      → build_json rt best_effort d.text ≡ ok m
      → IsJson rt best_effort (json_result d m)
  unfolding json_result plain_result build_json json_response
  json_result-IsJson m answered =
      let (p, parsed, same) =
        steps_return (parse_with_truncation rt best_effort d.text) _ _ answered in
      let answer = sym (ok_injective same) in
      record {
        answer = p;
        parsed_text = parsed;
        parsed_value = ap (λ m. not_null m.parsed) answer;
        pretty = ap (λ m. some m.pretty) answer;
        cut_off = ap (λ m. some m.truncated) answer;
        no_documents = refl;
        no_lines = refl;
      }

  ndjson_result-IsNdjson :
      (m : OutMessage)
      → build_ndjson rt best_effort d.text ≡ ok m
      → IsNdjson rt best_effort (ndjson_result d m)
  unfolding ndjson_result plain_result build_ndjson ndjson_response
  ndjson_result-IsNdjson m answered =
      let r = parse_ndjson rt best_effort d.text in
      let (first, others, documents, answer) = some_documents_lem r.documents r m answered in
      record {
        first = first;
        others = others;
        parsed_text = documents;
        documents = ap (λ m. m.documents) answer ∙ ap some documents;
        pretty =
            ap (λ m. some m.pretty) answer
            ∙ ap (λ vs. some (join (codes "\n\n") (map pretty_text vs))) documents;
        no_parsed = refl;
        no_lines = refl;
      }

-- The kind of a result says which of its properties are set.
abbrev pub IsWellFormed : Runtime → (Text → Option Value) → DecodeResult → Type 0
IsWellFormed rt best_effort r = IsSetFor rt best_effort r r.kind

module _ (rt : Runtime) (best_effort : Text → Option Value) (lib : MarkupLibraries) where
  markup_result-IsWellFormed :
      (d : Decoded) (kind : MarkupKind) (r : Result MarkupFormatResult)
      → IsWellFormed rt best_effort (markup_result d kind r)
  unfolding markup_result plain_result
  markup_result-IsWellFormed d MarkupKind.html thrown =
      markup_result-IsMarkup rt best_effort d MarkupKind.html thrown
  markup_result-IsWellFormed d MarkupKind.html (ok r) =
      markup_result-IsMarkup rt best_effort d MarkupKind.html (ok r)
  markup_result-IsWellFormed d MarkupKind.xml thrown =
      markup_result-IsMarkup rt best_effort d MarkupKind.xml thrown
  markup_result-IsWellFormed d MarkupKind.xml (ok r) =
      markup_result-IsMarkup rt best_effort d MarkupKind.xml (ok r)

  pub classify-IsWellFormed :
      (d : Decoded) (content_type : Option Text)
      → IsWellFormed rt best_effort (classify (program_workers rt best_effort lib) d content_type)
  unfolding text_result plain_result json_result ndjson_result
  classify-IsWellFormed d content_type =
      classify_elim (program_workers rt best_effort lib) d (IsWellFormed rt best_effort)
        (with_text-IsPlain rt best_effort d ContentKind.text (some d.text))
        (with_text-IsPlain rt best_effort d image none)
        (with_text-IsPlain rt best_effort d ContentKind.binary none) (markup_result-IsWellFormed d)
        (json_result-IsJson rt best_effort d) (ndjson_result-IsNdjson rt best_effort d) content_type
