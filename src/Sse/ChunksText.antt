-- ===== src/Sse/ChunksText.antt =====
-- `chunksToText` of ui/src/body/sse.ts, and the raw text of ui/src/body/decode.ts.
use protospy.Prelude.{
  ◌≡◌, refl, sym, ap, ◌∙◌, Bool, true, false, Option, none, some, List, Text, ℕ, ◌+◌, length,
  replicate, length-append, append_assoc, [], ◌∷◌, ◌++◌, arith, Option-cases, inl, inr,
}
use mathlib.Core.List.{flatten}
use protospy.Wire.{BodyChunk, binary}
use protospy.Runtime.{Runtime, Result, ok, thrown, ◌>>=◌, ok_injective, steps_return}
use protospy.Store.Types.{BodyState}
use protospy.Decode.ContentType.{charset_from_content_type}
use protospy.Decode.Bytes.{
  Codecs, BodyBytes, or_thrown, chunk_to_bytes, set_at, chunks_to_bytes, decompress_body,
  has_binary_chunk, decode_bytes_to_text, decode_with,
}
use protospy.Decode.Copying.{set_at-zeros}
use protospy.Decode.Errors.{payloads, chunks_to_bytes-payloads}
use protospy.Decode.Outcomes.{DecodeResult}
use protospy.Decode.Steps.{Workers, body_bytes, decode_body}
use protospy.Decode.Contract.{decode_body-Carries}

-- The conversion of one chunk; `raw.charCodeAt(i)` for each `i` are the bytes that `atob` returns.
unfoldable pub encode_chunk : Runtime → BodyChunk → Result (List ℕ)
encode_chunk rt (BodyChunk.text t) = ok (rt.encode_utf8 t)
encode_chunk rt (binary b) = elim (rt.atob b) [ none ↦ thrown | some bytes ↦ ok bytes ]

-- `body.chunks.map(...)`
unfoldable pub encode_chunks : Runtime → List BodyChunk → Result (List (List ℕ))
unfolding encode_chunk
encode_chunks rt [] = ok []
encode_chunks rt (chunk ∷ chunks) = do
  bytes ← encode_chunk rt chunk
  rest ← encode_chunks rt chunks
  ok (bytes ∷ rest)

-- `arrays.reduce((sum, a) => sum + a.byteLength, sum)`
unfoldable pub sum_lengths : ℕ → List (List ℕ) → ℕ
sum_lengths sum [] = sum
sum_lengths sum (a ∷ arrays) = sum_lengths (sum + length a) arrays

-- the loop over the arrays, with the variables `combined` and `offset`
unfoldable pub fill : List ℕ → ℕ → List (List ℕ) → List ℕ
unfolding set_at
fill combined offset [] = combined
fill combined offset (arr ∷ arrays) = fill (set_at combined arr offset) (offset + length arr) arrays

unfoldable pub combine : List (List ℕ) → List ℕ
unfolding sum_lengths fill
combine arrays = fill (replicate (sum_lengths 0 arrays) 0) 0 arrays

unfoldable pub chunks_to_text : Runtime → BodyState → Result Text
unfolding encode_chunks combine
chunks_to_text rt body = do
  arrays ← encode_chunks rt body.chunks
  ok (rt.decode_utf8 (combine arrays))

sum_lengths_lem :
    (sum : ℕ) (arrays : List (List ℕ)) → sum_lengths sum arrays ≡ sum + length (flatten arrays)
unfolding sum_lengths flatten
sum_lengths_lem sum [] = omega arith
sum_lengths_lem sum (a ∷ arrays) =
    omega (arith, sum_lengths_lem (sum + length a) arrays, length-append a (flatten arrays))

fill-zeros :
    (arrays : List (List ℕ)) (filled : List ℕ)
    → fill (filled ++ replicate (length (flatten arrays)) 0) (length filled) arrays
      ≡ filled ++ flatten arrays
unfolding fill flatten
fill-zeros [] filled = refl
fill-zeros (arr ∷ arrays) filled =
    rw
      (
        length-append arr (flatten arrays),
        set_at-zeros filled arr (length (flatten arrays)),
        sym (length-append filled arr),
      )
      (fill-zeros arrays (filled ++ arr) ∙ append_assoc filled arr (flatten arrays))

-- The loop of `chunksToText` leaves the arrays in turn, and no byte of room.
combine-flatten : (arrays : List (List ℕ)) → combine arrays ≡ flatten arrays
unfolding combine
combine-flatten arrays =
    ap (λ n. fill (replicate n 0) 0 arrays) (sum_lengths_lem 0 arrays ∙ omega arith)
    ∙ fill-zeros arrays []

encode_chunk-chunk_to_bytes :
    (rt : Runtime) (chunk : BodyChunk) → encode_chunk rt chunk ≡ chunk_to_bytes rt chunk
unfolding encode_chunk chunk_to_bytes or_thrown
encode_chunk-chunk_to_bytes rt (BodyChunk.text t) = refl
encode_chunk-chunk_to_bytes rt (binary b) = elim (Option-cases (rt.atob b)) [
  | inl broken ↦ rw (broken, or_thrown, encode_chunk) refl
  | inr (bytes, read) ↦ rw (read, or_thrown, encode_chunk) refl
]

encode_chunks-chunks_to_bytes :
    (rt : Runtime) (chunks : List BodyChunk) → encode_chunks rt chunks ≡ chunks_to_bytes rt chunks
unfolding encode_chunks chunks_to_bytes
encode_chunks-chunks_to_bytes rt [] = refl
encode_chunks-chunks_to_bytes rt (chunk ∷ chunks) =
    rw (encode_chunk-chunk_to_bytes rt chunk, encode_chunks-chunks_to_bytes rt chunks) refl

module _ (rt : Runtime) (codecs : Codecs) where
  decode_bytes_to_text_plain :
      (bytes : List ℕ) (binary_chunk : Bool)
      → decode_bytes_to_text rt codecs bytes binary_chunk none ≡ rt.decode_utf8 bytes
  unfolding decode_bytes_to_text decode_with
  decode_bytes_to_text_plain bytes true = refl
  decode_bytes_to_text_plain bytes false = refl

  chunks_to_text_read :
      (body : BodyState) (arrays : List (List ℕ))
      → chunks_to_bytes rt body.chunks ≡ ok arrays
      → chunks_to_text rt body ≡ ok (rt.decode_utf8 (payloads rt body.chunks))
  unfolding chunks_to_text
  chunks_to_text_read body arrays read =
      rw (chunks_to_text, encode_chunks-chunks_to_bytes rt body.chunks, read)
        (ap (λ bytes. ok (rt.decode_utf8 bytes))
          (combine-flatten arrays ∙ chunks_to_bytes-payloads rt body.chunks arrays read))

  bytes_of_plain :
      (bytes : List ℕ) (encoding : Option Text) (b : BodyBytes)
      → encoding ≡ none
      → decompress_body codecs bytes encoding ≡ ok b
      → b.bytes ≡ bytes
  unfolding decompress_body
  bytes_of_plain bytes none b plain done = ap (λ c. c.bytes) (ok_injective (sym done))
  bytes_of_plain bytes (some encoding) b plain done = cc

  -- Of a body without a content encoding and without a charset, `chunksToText` returns the raw
  -- text that `decodeBody` returns, whenever the latter returns.
  pub chunks_to_text-raw_text :
      (workers : Workers) (body : BodyState) (r : DecodeResult)
      → body.content_encoding ≡ none
      → charset_from_content_type body.content_type ≡ none
      → decode_body rt codecs workers body ≡ ok r
      → chunks_to_text rt body ≡ ok r.raw_text
  unfolding decode_body body_bytes
  chunks_to_text-raw_text workers body r plain no_charset done =
      let (b, read, same) = steps_return (body_bytes rt codecs body) _ _ done in
      let (arrays, chunks_read, rest) = steps_return (chunks_to_bytes rt body.chunks) _ _ read in
      let carried = decode_body-Carries rt codecs workers body r done in
      let bytes =
        bytes_of_plain (payloads rt body.chunks) body.content_encoding
          (record { bytes = r.bytes; decoded_bytes = r.decoded_bytes }) plain carried.bytes in
      chunks_to_text_read body arrays chunks_read
      ∙ ap ok (
          ap rt.decode_utf8 (sym bytes)
          ∙ sym (decode_bytes_to_text_plain r.bytes (has_binary_chunk body.chunks))
          ∙ ap (decode_bytes_to_text rt codecs r.bytes (has_binary_chunk body.chunks))
              (sym no_charset)
          ∙ sym carried.raw_text)
