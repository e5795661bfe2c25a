-- ===== src/Tests/Decode.antt =====
-- Decoding bodies at concrete inputs.
use protospy.Prelude.{◌≡◌, refl, false, none, some, [], ◌∷◌, codes, reverse}
use protospy.Wire.{Value, text, binary}
use protospy.Runtime.{thrown, ok}
use protospy.Store.Types.{BodyState}
use protospy.Markup.{MarkupLibraries}
use protospy.JsonParse.Worker.{json_response, build_json}
use protospy.Decode.ContentType.{base_type, charset_from_content_type}
use protospy.Decode.Bytes.{Codecs}
use protospy.Decode.Outcomes.{DecodeResult, text_result, json_result}
use protospy.Decode.Steps.{Workers, program_workers, decode_body, decoded_of}
use protospy.Decode.Errors.{payloads}
use protospy.Decode.Results.{IsWellFormed}
use protospy.Decode.Contract.{decode_body-IsWellFormed}
use protospy.Decode.Described.{BytesOf, TextOf, decode_body_described}
use protospy.Sse.ChunksText.{chunks_to_text, chunks_to_text-raw_text}
use protospy.Tests.Samples.{plain_runtime, raw_body}

-- Compressed bytes are reversed; zstd always fails.
abbrev reversing : Codecs
reversing = record {
  brotli = λ bytes. ok (reverse bytes);
  zstd = λ bytes. thrown;
  read_stream = λ format bytes. ok (reverse bytes ∷ []);
  text_decoder = λ label. none;
}

abbrev no_libraries : MarkupLibraries
no_libraries = record { xml_format = λ t. none; beautify_html = λ t. none; tokenize = λ t. none }

abbrev workers : Workers
workers = program_workers plain_runtime (λ t. none) no_libraries

abbrev zipped : BodyState
zipped = record raw_body {
  chunks = text (codes "ed") ∷ binary (codes "c") ∷ [];
  content_encoding = some (codes "GZIP");
  content_type = some (codes "Application/JSON; charset=utf-8");
}

abbrev zipped_result : DecodeResult
zipped_result =
    json_result
      (decoded_of plain_runtime reversing zipped
        (record { bytes = codes "cde"; decoded_bytes = some 3 }))
      (json_response
        (record { parsed = Value.str (codes "cde"); pretty = codes "\"cde\""; truncated = false }))

zipped_decoded : decode_body plain_runtime reversing workers zipped ≡ ok zipped_result
unfolding decode_body build_json
zipped_decoded = refl

charset_unquoted :
    charset_from_content_type (some (codes "text/csv; Charset = \"latin1\" ; x=1"))
    ≡ some (codes "latin1")
unfolding charset_from_content_type
charset_unquoted = refl

charset_absent : charset_from_content_type (some (codes "text/csv; charset=")) ≡ none
unfolding charset_from_content_type
charset_absent = refl

base_type_trimmed : base_type (codes " Text/HTML ; q=1") ≡ codes "text/html"
unfolding base_type
base_type_trimmed = refl

decode_body_described_example :
    (zipped_result.wire_bytes ≡ zipped.wire_bytes)
    × (zipped_result.content_encoding ≡ zipped.content_encoding)
    × BytesOf reversing
        (payloads plain_runtime zipped.chunks)
        zipped.content_encoding
        zipped_result.bytes
        zipped_result.decoded_bytes
    × TextOf plain_runtime reversing zipped.chunks
        (charset_from_content_type zipped.content_type)
        zipped_result.bytes
        zipped_result.raw_text
        zipped_result.text_available
decode_body_described_example =
    decode_body_described plain_runtime reversing workers zipped zipped_result zipped_decoded

decode_body-IsWellFormed_example : IsWellFormed plain_runtime (λ t. none) zipped_result
decode_body-IsWellFormed_example =
    decode_body-IsWellFormed plain_runtime reversing (λ t. none) no_libraries zipped zipped_result
      zipped_decoded

-- neither an encoding nor a charset
abbrev plain_body : BodyState
plain_body = record raw_body {
  chunks = text (codes "ab") ∷ binary (codes "c") ∷ [];
  content_type = some (codes "text/plain");
}

abbrev plain_decoded : DecodeResult
plain_decoded = text_result (
    decoded_of plain_runtime reversing plain_body
      (record { bytes = codes "abc"; decoded_bytes = none }))

plain_body_decoded : decode_body plain_runtime reversing workers plain_body ≡ ok plain_decoded
unfolding decode_body
plain_body_decoded = refl

no_charset : charset_from_content_type plain_body.content_type ≡ none
unfolding charset_from_content_type
no_charset = refl

chunks_to_text-raw_text_example :
    chunks_to_text plain_runtime plain_body ≡ ok plain_decoded.raw_text
chunks_to_text-raw_text_example =
    chunks_to_text-raw_text plain_runtime reversing workers plain_body plain_decoded refl no_charset
      plain_body_decoded
