-- ===== src/Decode/Steps.antt =====
-- `decodeBody` of ui/src/body/decode.ts. The workers are an interface: what they answer, `thrown`
-- for an answer with an error.
use protospy.Prelude.{
  Bool, Option, none, some, [], ◌∷◌, Text, codes, to_lower, includes, starts_with, any,
  if◌then◌else◌,
}
use protospy.Wire.{Value}
use protospy.Runtime.{Runtime, Result, thrown, ok, ◌>>=◌}
use protospy.Store.Types.{BodyState}
use protospy.Body.ViewModes.{ContentKind, image}
use protospy.JsonParse.Worker.{OutMessage, build_json, build_ndjson}
use protospy.Markup.{MarkupKind, MarkupFormatResult, MarkupLibraries, format_markup_job}
use protospy.Decode.ContentType.{
  is_jsonl_content_type, is_html_content_type, is_xml_content_type, is_textual_content_type,
  charset_from_content_type,
}
use protospy.Decode.Bytes.{
  Codecs, BodyBytes, chunks_to_bytes, concatenate, decompress_body, has_binary_chunk,
  decode_bytes_to_text, compute_text_available,
}
use protospy.Decode.Outcomes.{
  DecodeResult, Decoded, plain_result, text_result, ndjson_result, json_result, markup_result,
}

-- `parseJson`, `parseNdjson` and `formatMarkup`
pub record Workers : Type 0 where
  pub parse_json : Text → Result OutMessage
  pub parse_ndjson : Text → Result OutMessage
  pub format_markup : Text → MarkupKind → Result MarkupFormatResult

-- The workers of the program, where none of them fails.
abbrev pub program_workers : Runtime → (Text → Option Value) → MarkupLibraries → Workers
program_workers rt best_effort lib = record {
  parse_json = build_json rt best_effort;
  parse_ndjson = build_ndjson rt best_effort;
  format_markup = format_markup_job lib;
}

-- steps 9 and 10: `contentType?.startsWith(prefix)` for the binary types
unfoldable pub is_binary_content_type : Text → Bool
unfolding starts_with
is_binary_content_type content_type =
    any (λ prefix. starts_with content_type prefix)
      (codes "audio/" ∷ codes "video/" ∷ codes "application/octet-stream" ∷ [])

unfoldable pub decode_rest : Decoded → Text → DecodeResult
unfolding is_textual_content_type starts_with is_binary_content_type text_result plain_result
decode_rest d content_type =
    if is_textual_content_type content_type
    then text_result d
    else if starts_with content_type (codes "image/")
    then plain_result d image
    else if is_binary_content_type content_type
    then plain_result d ContentKind.binary
    else text_result d

-- the variable `markupKind`
unfoldable pub markup_kind_of : Text → Option MarkupKind
unfolding is_html_content_type is_xml_content_type
markup_kind_of content_type =
    if is_html_content_type content_type
    then some MarkupKind.html
    else if is_xml_content_type content_type
    then some MarkupKind.xml
    else none

module _ (workers : Workers) where
  -- step 6 and the following
  unfoldable pub decode_markup : Decoded → Text → DecodeResult
  unfolding markup_kind_of markup_result decode_rest
  decode_markup d content_type = elim (markup_kind_of content_type) [
    | none ↦ decode_rest d content_type
    | some kind ↦ markup_result d kind (workers.format_markup d.text kind)
  ]

  -- step 5 and the following
  unfoldable pub decode_json : Decoded → Text → DecodeResult
  unfolding to_lower includes json_result decode_markup
  decode_json d content_type =
      if includes (to_lower content_type) (codes "json")
      then elim (workers.parse_json d.text) [
        | ok m ↦ json_result d m
        | thrown ↦ decode_markup d content_type
      ]
      else decode_markup d content_type

  -- step 4 and the following
  unfoldable pub decode_ndjson : Decoded → Text → DecodeResult
  unfolding is_jsonl_content_type ndjson_result decode_json
  decode_ndjson d content_type =
      if is_jsonl_content_type content_type
      then elim (workers.parse_ndjson d.text) [
        | ok m ↦ ndjson_result d m
        | thrown ↦ decode_json d content_type
      ]
      else decode_json d content_type

  -- steps 4 to 10; without a content type the last alone
  unfoldable pub classify : Decoded → Option Text → DecodeResult
  unfolding decode_ndjson text_result
  classify d none = text_result d
  classify d (some content_type) = decode_ndjson d content_type

-- `contentType ?? "application/octet-stream"`
abbrev pub media_type_of : Option Text → Text
media_type_of none = codes "application/octet-stream"
media_type_of (some content_type) = content_type

module _ (rt : Runtime) (codecs : Codecs) where
  -- step 3
  unfoldable pub decoded_of : BodyState → BodyBytes → Decoded
  unfolding has_binary_chunk charset_from_content_type decode_bytes_to_text compute_text_available
  decoded_of body b = record {
    media_type = media_type_of body.content_type;
    wire_bytes = body.wire_bytes;
    content_type = body.content_type;
    content_encoding = body.content_encoding;
    bytes = b.bytes;
    decoded_bytes = b.decoded_bytes;
    text =
        decode_bytes_to_text rt codecs b.bytes (has_binary_chunk body.chunks)
          (charset_from_content_type body.content_type);
    text_available = compute_text_available codecs body.chunks body.content_type;
  }

  -- steps 1 and 2
  unfoldable pub body_bytes : BodyState → Result BodyBytes
  unfolding chunks_to_bytes concatenate decompress_body
  body_bytes body = do
    arrays ← chunks_to_bytes rt body.chunks
    decompress_body codecs (concatenate arrays) body.content_encoding

  unfoldable pub decode_body : Workers → BodyState → Result DecodeResult
  unfolding body_bytes decoded_of classify
  decode_body workers body = do
    b ← body_bytes body
    ok (classify workers (decoded_of body b) body.content_type)
