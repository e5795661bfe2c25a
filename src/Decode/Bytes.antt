-- ===== src/Decode/Bytes.antt =====
-- The bytes of a body in ui/src/body/decode.ts: chunks, their concatenation and decompression.
use protospy.Prelude.{
  ℕ, ◌+◌, Bool, true, false, ◌||◌, Option, none, some, List, [], ◌∷◌, ◌++◌, Text, codes, text_eq,
  to_lower, length, take, drop, replicate, any, if◌then◌else◌,
}
use protospy.Decode.ContentType.{charset_from_content_type}
use protospy.Wire.{BodyChunk, binary}
use protospy.Runtime.{Runtime, Result, thrown, ok, ◌>>=◌}

-- The decompressors and the text decoders of the platform: `brotli.decompress`, zstd's
-- `decompress`, the chunks read from a `DecompressionStream` of a format, and the decoder of
-- `new TextDecoder(label)`, `none` where the label is not supported.
pub record Codecs : Type 0 where
  pub brotli : List ℕ → Result (List ℕ)
  pub zstd : List ℕ → Result (List ℕ)
  pub read_stream : Text → List ℕ → Result (List (List ℕ))
  pub text_decoder : Text → Option (List ℕ → Text)

unfoldable pub or_thrown : Option (List ℕ) → Result (List ℕ)
or_thrown none = thrown
or_thrown (some bytes) = ok bytes

unfoldable pub chunk_to_bytes : Runtime → BodyChunk → Result (List ℕ)
unfolding or_thrown
chunk_to_bytes rt (BodyChunk.text t) = ok (rt.encode_utf8 t)
chunk_to_bytes rt (binary b) = or_thrown (rt.atob b)

-- `chunks.map(chunkToBytes)`
unfoldable pub chunks_to_bytes : Runtime → List BodyChunk → Result (List (List ℕ))
unfolding chunk_to_bytes
chunks_to_bytes rt [] = ok []
chunks_to_bytes rt (chunk ∷ chunks) = do
  bytes ← chunk_to_bytes rt chunk
  rest ← chunks_to_bytes rt chunks
  ok (bytes ∷ rest)

-- `arrays.reduce((sum, a) => sum + a.byteLength, 0)`
abbrev pub total_length : List (List ℕ) → ℕ
total_length [] = 0
total_length (a ∷ arrays) = length a + total_length arrays

-- `result.set(arr, offset)`
unfoldable pub set_at : List ℕ → List ℕ → ℕ → List ℕ
set_at result arr offset = take offset result ++ arr ++ drop (offset + length arr) result

-- the loop over the arrays, with the variables `result` and `offset`
unfoldable pub copy_arrays : List (List ℕ) → List ℕ → ℕ → List ℕ
unfolding set_at
copy_arrays [] result offset = result
copy_arrays (arr ∷ arrays) result offset =
    copy_arrays arrays (set_at result arr offset) (offset + length arr)

unfoldable pub concatenate : List (List ℕ) → List ℕ
unfolding copy_arrays
concatenate arrays = copy_arrays arrays (replicate (total_length arrays) 0) 0

module _ (codecs : Codecs) where
  -- the loop that reads the `DecompressionStream`
  unfoldable pub inflate : List ℕ → Text → Result (List ℕ)
  unfolding concatenate
  inflate bytes format = do chunks ← codecs.read_stream format bytes; ok (concatenate chunks)

  unfoldable pub decompress : List ℕ → Text → Result (List ℕ)
  unfolding text_eq inflate
  decompress bytes encoding =
      if text_eq encoding (codes "br")
      then codecs.brotli bytes
      else if text_eq encoding (codes "zstd")
      then codecs.zstd bytes
      else if text_eq encoding (codes "gzip") || text_eq encoding (codes "deflate")
      then inflate bytes encoding
      else thrown

-- the encodings that step 2 decompresses
unfoldable pub is_compressed : Text → Bool
unfolding text_eq
is_compressed encoding =
    text_eq encoding (codes "br")
    || text_eq encoding (codes "gzip")
    || text_eq encoding (codes "deflate")
    || text_eq encoding (codes "zstd")

-- `bytes` and `decodedBytes` behind step 2
pub record BodyBytes : Type 0 where
  pub bytes : List ℕ
  pub decoded_bytes : Option ℕ

abbrev pub with_size : List ℕ → Result BodyBytes
with_size out = ok (record { bytes = out; decoded_bytes = some (length out) })

unfoldable pub decompress_known : Codecs → List ℕ → Text → Result BodyBytes
unfolding is_compressed decompress
decompress_known codecs bytes encoding =
    if is_compressed encoding
    then decompress codecs bytes encoding >>= with_size
    else ok (record { bytes = bytes; decoded_bytes = none })

-- step 2, with `contentEncoding?.toLowerCase()`
unfoldable pub decompress_body : Codecs → List ℕ → Option Text → Result BodyBytes
unfolding decompress_known to_lower
decompress_body codecs bytes none = ok (record { bytes = bytes; decoded_bytes = none })
decompress_body codecs bytes (some encoding) = decompress_known codecs bytes (to_lower encoding)

-- `"binary" in c`
abbrev pub is_binary : BodyChunk → Bool
is_binary (BodyChunk.text t) = false
is_binary (binary b) = true

unfoldable pub has_binary_chunk : List BodyChunk → Bool
has_binary_chunk chunks = any is_binary chunks

-- `new TextDecoder(charset).decode(bytes)` inside its `try`
unfoldable pub decode_with : Runtime → Codecs → List ℕ → Option Text → Text
decode_with rt codecs bytes none = rt.decode_utf8 bytes
decode_with rt codecs bytes (some charset) = elim (codecs.text_decoder charset) [
  | none ↦ rt.decode_utf8 bytes
  | some decode ↦ decode bytes
]

unfoldable pub decode_bytes_to_text : Runtime → Codecs → List ℕ → Bool → Option Text → Text
unfolding decode_with
decode_bytes_to_text rt codecs bytes binary_chunk charset =
    if binary_chunk then decode_with rt codecs bytes charset else rt.decode_utf8 bytes

-- whether a decoder for the label can be made
unfoldable pub is_supported : Codecs → Option Text → Bool
is_supported codecs none = false
is_supported codecs (some charset) = elim (codecs.text_decoder charset) [
  | none ↦ false
  | some decode ↦ true
]

unfoldable pub compute_text_available : Codecs → List BodyChunk → Option Text → Bool
unfolding has_binary_chunk charset_from_content_type is_supported
compute_text_available codecs chunks content_type =
    if has_binary_chunk chunks
    then is_supported codecs (charset_from_content_type content_type)
    else true
