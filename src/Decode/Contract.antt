-- ===== src/Decode/Contract.antt =====
-- The contract of `decodeBody` of ui/src/body/decode.ts, with the workers of the program and with
-- any others.
use protospy.Prelude.{
  ◌≡◌, refl, sym, ap, ◌∙◌, ◌⊎◌, inl, inr, Bool, true, false, Option, none, some, Text, length,
  to_lower, Bool-cases, subst, List, ℕ,
}
use protospy.Wire.{Value}
use protospy.Runtime.{Runtime, Result, thrown, ok, ◌>>=◌, ok_injective, steps_return}
use protospy.Store.Types.{BodyState}
use protospy.Markup.{MarkupKind, MarkupFormatResult, MarkupLibraries}
use protospy.Decode.ContentType.{charset_from_content_type}
use protospy.Decode.Bytes.{
  Codecs, BodyBytes, with_size, is_compressed, decompress, decompress_known, decompress_body,
  chunks_to_bytes, has_binary_chunk, decode_bytes_to_text, compute_text_available,
}
use protospy.Decode.Outcomes.{
  DecodeResult, Decoded, plain_result, text_result, ndjson_result, json_result, markup_result,
}
use protospy.Decode.Steps.{
  Workers, program_workers, classify, decoded_of, body_bytes, decode_body, media_type_of,
}
use protospy.Decode.Errors.{payloads, body_bytes_read}
use protospy.Decode.Branches.{classify_elim}
use protospy.Decode.Results.{IsWellFormed, classify-IsWellFormed}

-- The decompressed bytes with their number, or the bytes of the chunks and no number.
abbrev IsSized : BodyBytes → Type 0
IsSized b = (b.decoded_bytes ≡ none) ⊎ (b.decoded_bytes ≡ some (length b.bytes))

pub decompress_known_yes :
    (codecs : Codecs) (bytes : List ℕ) (encoding : Text)
    → is_compressed encoding ≡ true
    → decompress_known codecs bytes encoding ≡ (decompress codecs bytes encoding >>= with_size)
unfolding decompress_known
decompress_known_yes codecs bytes encoding compressed = rw (decompress_known, compressed) refl

pub decompress_known_no :
    (codecs : Codecs) (bytes : List ℕ) (encoding : Text)
    → is_compressed encoding ≡ false
    → decompress_known codecs bytes encoding ≡ ok (record { bytes = bytes; decoded_bytes = none })
unfolding decompress_known
decompress_known_no codecs bytes encoding other = rw (decompress_known, other) refl

decompress_body-IsSized :
    (codecs : Codecs) (bytes : List ℕ) (encoding : Option Text) (b : BodyBytes)
    → decompress_body codecs bytes encoding ≡ ok b
    → IsSized b
unfolding decompress_body decompress_known
decompress_body-IsSized codecs bytes none b done =
    inl (ap (λ c. c.decoded_bytes) (sym (ok_injective done)))
decompress_body-IsSized codecs bytes (some encoding) b done =
    elim (Bool-cases (is_compressed (to_lower encoding))) [
      | inl compressed ↦
          let (out, decompressed, same) =
            steps_return (decompress codecs bytes (to_lower encoding)) _ _
              (sym (decompress_known_yes codecs bytes (to_lower encoding) compressed) ∙ done) in
          inr (
            subst (λ c. BodyBytes.decoded_bytes c ≡ some (length (BodyBytes.bytes c)))
              (ok_injective same) refl)
      | inr other ↦ inl (
          ap (λ c. c.decoded_bytes)
            (ok_injective (sym done ∙ decompress_known_no codecs bytes (to_lower encoding) other)))
    ]

-- What the steps 4 to 10 leave as it is.
record Shared : Type 0 where
  text_available : Bool
  media_type : Text
  wire_bytes : ℕ
  content_encoding : Option Text
  raw_text : Text
  body_bytes : BodyBytes

abbrev shared_of : DecodeResult → Shared
shared_of r = record {
  text_available = r.text_available;
  media_type = r.media_type;
  wire_bytes = r.wire_bytes;
  content_encoding = r.content_encoding;
  raw_text = r.raw_text;
  body_bytes = record { bytes = r.bytes; decoded_bytes = r.decoded_bytes };
}

abbrev kept : Decoded → Shared
kept d = record {
  text_available = d.text_available;
  media_type = d.media_type;
  wire_bytes = d.wire_bytes;
  content_encoding = d.content_encoding;
  raw_text = d.text;
  body_bytes = record { bytes = d.bytes; decoded_bytes = d.decoded_bytes };
}

markup_result-kept :
    (d : Decoded) (kind : MarkupKind) (r : Result MarkupFormatResult)
    → shared_of (markup_result d kind r) ≡ kept d
unfolding markup_result plain_result
markup_result-kept d kind thrown = refl
markup_result-kept d kind (ok r) = refl

classify-kept :
    (workers : Workers) (d : Decoded) (content_type : Option Text)
    → shared_of (classify workers d content_type) ≡ kept d
unfolding text_result plain_result json_result ndjson_result
classify-kept workers d content_type =
    classify_elim workers d (λ r. shared_of r ≡ kept d) refl refl refl (markup_result-kept d)
      (λ m answered. refl) (λ m answered. refl) content_type

-- How a result comes from the body.
pub record Carries (rt : Runtime) (codecs : Codecs) (body : BodyState) (r : DecodeResult)
    : Type 0 where
  pub wire_bytes : r.wire_bytes ≡ body.wire_bytes
  pub content_encoding : r.content_encoding ≡ body.content_encoding
  pub media_type : r.media_type ≡ media_type_of body.content_type
  pub bytes :
      decompress_body codecs (payloads rt body.chunks) body.content_encoding
      ≡ ok (record { bytes = r.bytes; decoded_bytes = r.decoded_bytes })
  pub sized : (r.decoded_bytes ≡ none) ⊎ (r.decoded_bytes ≡ some (length r.bytes))
  pub raw_text :
      r.raw_text
      ≡ decode_bytes_to_text rt codecs r.bytes
          (has_binary_chunk body.chunks)
          (charset_from_content_type body.content_type)
  pub text_available :
      r.text_available ≡ compute_text_available codecs body.chunks body.content_type

module _ (rt : Runtime) (codecs : Codecs) where
  -- Whatever the workers answer, a result keeps the wire byte count and the encoding of the body;
  -- its bytes are those of the chunks in turn, decompressed if the encoding is a known one, in
  -- which case their number is given; its raw text is the decoding of these bytes.
  pub decode_body-Carries :
      (workers : Workers) (body : BodyState) (r : DecodeResult)
      → decode_body rt codecs workers body ≡ ok r
      → Carries rt codecs body r
  unfolding decode_body decoded_of body_bytes
  decode_body-Carries workers body r done =
      let (b, read, same) = steps_return (body_bytes rt codecs body) _ _ done in
      let kept_all =
        ap shared_of (sym (ok_injective same))
        ∙ classify-kept workers (decoded_of rt codecs body b) body.content_type in
      let (arrays, chunks_read, rest) = steps_return (chunks_to_bytes rt body.chunks) _ _ read in
      let decompressed = sym (body_bytes_read rt codecs body arrays chunks_read) ∙ read in
      let bytes_same = ap (λ s. s.body_bytes) kept_all in
      record {
        wire_bytes = ap (λ s. s.wire_bytes) kept_all;
        content_encoding = ap (λ s. s.content_encoding) kept_all;
        media_type = ap (λ s. s.media_type) kept_all;
        bytes = decompressed ∙ ap ok (sym bytes_same);
        sized = subst IsSized (sym bytes_same) (
            decompress_body-IsSized codecs (payloads rt body.chunks) body.content_encoding b
              decompressed);
        raw_text =
            ap (λ s. s.raw_text) kept_all
            ∙ ap
                (λ c.
                  decode_bytes_to_text rt codecs (BodyBytes.bytes c) (has_binary_chunk body.chunks)
                    (charset_from_content_type body.content_type))
                (sym bytes_same);
        text_available = ap (λ s. s.text_available) kept_all;
      }

  -- In a result of `decodeBody` the kind says which properties are set: for JSON what was parsed of
  -- the raw text, for documents the list of them, which is not empty, for markup a text, for plain
  -- text the raw text, and for images and other binary bodies none.
  pub decode_body-IsWellFormed :
      (best_effort : Text → Option Value) (lib : MarkupLibraries) (body : BodyState)
      (r : DecodeResult)
      → decode_body rt codecs (program_workers rt best_effort lib) body ≡ ok r
      → IsWellFormed rt best_effort r
  unfolding decode_body
  decode_body-IsWellFormed best_effort lib body r done =
      let (b, read, same) = steps_return (body_bytes rt codecs body) _ _ done in
      subst (IsWellFormed rt best_effort) (ok_injective same)
        (classify-IsWellFormed rt best_effort lib (decoded_of rt codecs body b) body.content_type)
