-- ===== src/Decode/Described.antt =====
-- Where the bytes and the text of a result of `decodeBody` in ui/src/body/decode.ts come from, by
-- the content encoding, the chunks and the charset.
use mathlib.Core.List.{flatten}
use protospy.Prelude.{
  ℕ, ◌≡◌, ◌≢◌, refl, sym, ap, ◌∙◌, ◌⊎◌, inl, inr, Bool, true, false, ◌||◌, Option, none, some, List,
  [], ◌∷◌, Text, codes, text_eq, to_lower, length, Bool-cases, Option-cases, arith, subst,
  if◌then◌else◌,
}
use protospy.Prelude.StringLaws.{text_eq_refl, text_eq_sound}
use protospy.Wire.{BodyChunk, binary}
use protospy.Runtime.{Runtime, ok, thrown, thrown_or_ok, ok_injective, steps_return}
use protospy.Store.Types.{BodyState}
use protospy.Decode.ContentType.{charset_from_content_type}
use protospy.Decode.Bytes.{
  Codecs, BodyBytes, with_size, inflate, decompress, is_compressed, decompress_known,
  decompress_body, has_binary_chunk, decode_with, decode_bytes_to_text, is_supported,
  compute_text_available,
}
use protospy.Decode.Copying.{concatenate-flatten}
use protospy.Decode.Errors.{payloads}
use protospy.Decode.Outcomes.{DecodeResult}
use protospy.Decode.Steps.{Workers, decode_body}
use protospy.Decode.Contract.{decompress_known_yes, decompress_known_no, decode_body-Carries}

module _ (codecs : Codecs) (raw : List ℕ) where
  -- The bytes that the decompressor of an encoding returns for the raw ones.
  abbrev pub IsDecompressed : Text → List ℕ → Type 0
  IsDecompressed encoding bytes =
      ((encoding ≡ codes "br") × (codecs.brotli raw ≡ ok bytes))
      ⊎ (((encoding ≡ codes "zstd") × (codecs.zstd raw ≡ ok bytes))
          ⊎ (((encoding ≡ codes "gzip") ⊎ (encoding ≡ codes "deflate"))
              × ((parts : List (List ℕ)) × (codecs.read_stream encoding raw ≡ ok parts)
                  × (bytes ≡ flatten parts))))

  -- None of the four encodings that are decompressed.
  abbrev pub IsOther : Text → Type 0
  IsOther encoding =
      (encoding ≢ codes "br")
      × (encoding ≢ codes "gzip")
      × (encoding ≢ codes "deflate")
      × (encoding ≢ codes "zstd")

  abbrev pub IsUnpacked : Text → List ℕ → Option ℕ → Type 0
  IsUnpacked encoding bytes decoded =
      (IsDecompressed encoding bytes × (decoded ≡ some (length bytes)))
      ⊎ (IsOther encoding × (bytes ≡ raw) × (decoded ≡ none))

  -- Without an encoding the raw bytes; with one, in lower case, what its decompressor returns, and
  -- the number of these bytes; with an unknown one the raw bytes.
  abbrev pub BytesOf : Option Text → List ℕ → Option ℕ → Type 0
  BytesOf none bytes decoded = (bytes ≡ raw) × (decoded ≡ none)
  BytesOf (some encoding) bytes decoded = IsUnpacked (to_lower encoding) bytes decoded

  apart : (a b : Text) → text_eq a b ≡ false → a ≢ b
  apart a b h e = let same = ap (λ t. text_eq t b) e ∙ text_eq_refl b in cc

  inflated :
      (encoding : Text) (out : List ℕ)
      → inflate codecs raw encoding ≡ ok out
      → (parts : List (List ℕ)) × (codecs.read_stream encoding raw ≡ ok parts)
        × (out ≡ flatten parts)
  unfolding inflate
  inflated encoding out h =
      let (parts, returned, copied) = steps_return (codecs.read_stream encoding raw) _ _ h in
      (parts, returned, sym (ok_injective copied) ∙ concatenate-flatten parts)

  inflate_described :
      (encoding : Text) (out : List ℕ)
      → (if text_eq encoding (codes "gzip") || text_eq encoding (codes "deflate")
          then inflate codecs raw encoding
          else thrown)
        ≡ ok out
      → ((encoding ≡ codes "gzip") ⊎ (encoding ≡ codes "deflate"))
        × ((parts : List (List ℕ)) × (codecs.read_stream encoding raw ≡ ok parts)
            × (out ≡ flatten parts))
  unfolding inflate
  inflate_described encoding out h = elim (Bool-cases (text_eq encoding (codes "gzip"))) [
    | inl gzip ↦
        (inl (text_eq_sound encoding (codes "gzip") gzip), inflated encoding out (rw gzip at h))
    | inr not_gzip ↦
        let g = rw not_gzip at h in
        elim (Bool-cases (text_eq encoding (codes "deflate"))) [
          | inl deflate ↦ (
            inr (text_eq_sound encoding (codes "deflate") deflate),
            inflated encoding out (rw deflate at g),
          )
          | inr not_deflate ↦ absurd (thrown_or_ok (rw not_deflate at g))
        ]
  ]

  decompress_described :
      (encoding : Text) (out : List ℕ)
      → decompress codecs raw encoding ≡ ok out
      → IsDecompressed encoding out
  unfolding decompress inflate
  decompress_described encoding out h = elim (Bool-cases (text_eq encoding (codes "br"))) [
    | inl br ↦ inl (text_eq_sound encoding (codes "br") br, rw br at h)
    | inr not_br ↦
        let g = rw not_br at h in
        elim (Bool-cases (text_eq encoding (codes "zstd"))) [
          | inl zstd ↦ inr (inl (text_eq_sound encoding (codes "zstd") zstd, rw zstd at g))
          | inr not_zstd ↦ inr (inr (inflate_described encoding out (rw not_zstd at g)))
        ]
  ]

  is_compressed-IsOther : (encoding : Text) → is_compressed encoding ≡ false → IsOther encoding
  unfolding is_compressed
  is_compressed-IsOther encoding h = (
    apart encoding (codes "br") (ground arith),
    apart encoding (codes "gzip") (ground arith),
    apart encoding (codes "deflate") (ground arith),
    apart encoding (codes "zstd") (ground arith),
  )

  decompress_known_described :
      (encoding : Text) (b : BodyBytes)
      → decompress_known codecs raw encoding ≡ ok b
      → IsUnpacked encoding b.bytes b.decoded_bytes
  decompress_known_described encoding b h = elim (Bool-cases (is_compressed encoding)) [
    | inl known ↦
        let (out, returned, sized) =
          steps_return (decompress codecs raw encoding) with_size _
            (sym (decompress_known_yes codecs raw encoding known) ∙ h) in
        subst (λ (c : BodyBytes). IsUnpacked encoding c.bytes c.decoded_bytes) (ok_injective sized)
          (inl (decompress_described encoding out returned, refl))
    | inr other ↦
        subst (λ (c : BodyBytes). IsUnpacked encoding c.bytes c.decoded_bytes)
          (ok_injective (sym (decompress_known_no codecs raw encoding other) ∙ h))
          (inr (is_compressed-IsOther encoding other, refl, refl))
  ]

  decompress_body_described :
      (encoding : Option Text) (b : BodyBytes)
      → decompress_body codecs raw encoding ≡ ok b
      → BytesOf encoding b.bytes b.decoded_bytes
  unfolding decompress_body
  decompress_body_described none b h =
      subst (λ (c : BodyBytes). BytesOf none c.bytes c.decoded_bytes) (ok_injective h) (refl, refl)
  decompress_body_described (some encoding) b h = decompress_known_described (to_lower encoding) b h

-- Whether a chunk came as text, and whether one came as binary.
abbrev pub AreTexts : List BodyChunk → Type 0
AreTexts [] = Unit
AreTexts (BodyChunk.text t ∷ chunks) = AreTexts chunks
AreTexts (binary b ∷ chunks) = ⊥

abbrev pub HasBinary : List BodyChunk → Type 0
HasBinary [] = ⊥
HasBinary (BodyChunk.text t ∷ chunks) = HasBinary chunks
HasBinary (binary b ∷ chunks) = Unit

has_binary_chunk-AreTexts :
    (chunks : List BodyChunk) → has_binary_chunk chunks ≡ false → AreTexts chunks
unfolding has_binary_chunk
has_binary_chunk-AreTexts [] h = tt
has_binary_chunk-AreTexts (BodyChunk.text t ∷ chunks) h = has_binary_chunk-AreTexts chunks h
has_binary_chunk-AreTexts (binary b ∷ chunks) h = cc

has_binary_chunk-HasBinary :
    (chunks : List BodyChunk) → has_binary_chunk chunks ≡ true → HasBinary chunks
unfolding has_binary_chunk
has_binary_chunk-HasBinary [] h = cc
has_binary_chunk-HasBinary (BodyChunk.text t ∷ chunks) h = has_binary_chunk-HasBinary chunks h
has_binary_chunk-HasBinary (binary b ∷ chunks) h = tt

-- The decoder for a charset, if there are both.
abbrev pub decoder_for : Codecs → Option Text → Option (List ℕ → Text)
decoder_for codecs none = none
decoder_for codecs (some charset) = codecs.text_decoder charset

-- Where all chunks are texts, or there is no decoder for the charset, the text is the bytes read as
-- UTF-8; otherwise what the decoder makes of them. The text mode is there but in the case that a
-- chunk is binary and there is no decoder.
abbrev pub TextOf : Runtime → Codecs → List BodyChunk → Option Text → List ℕ → Text → Bool → Type 0
TextOf rt codecs chunks charset bytes t available =
    (AreTexts chunks × (t ≡ rt.decode_utf8 bytes) × (available ≡ true))
    ⊎ ((HasBinary chunks
          × ((decode : List ℕ → Text) × (decoder_for codecs charset ≡ some decode)
              × (t ≡ decode bytes)
              × (available ≡ true)))
        ⊎ (HasBinary chunks
            × (decoder_for codecs charset ≡ none)
            × (t ≡ rt.decode_utf8 bytes)
            × (available ≡ false)))

module _ (rt : Runtime) (codecs : Codecs) where
  charset_described :
      (charset : Option Text) (bytes : List ℕ)
      → ((decode : List ℕ → Text) × (decoder_for codecs charset ≡ some decode)
          × (decode_with rt codecs bytes charset ≡ decode bytes)
          × (is_supported codecs charset ≡ true))
        ⊎ ((decoder_for codecs charset ≡ none)
            × (decode_with rt codecs bytes charset ≡ rt.decode_utf8 bytes)
            × (is_supported codecs charset ≡ false))
  unfolding decode_with is_supported
  charset_described none bytes = inr (refl, refl, refl)
  charset_described (some charset) bytes = elim (Option-cases (codecs.text_decoder charset)) [
    | inl gone ↦ inr (gone, rw (decode_with, gone) refl, rw (is_supported, gone) refl)
    | inr (decode, found) ↦
        inl (decode, found, rw (decode_with, found) refl, rw (is_supported, found) refl)
  ]

  decode_described :
      (chunks : List BodyChunk) (content_type : Option Text) (bytes : List ℕ)
      → TextOf rt codecs chunks
          (charset_from_content_type content_type)
          bytes
          (decode_bytes_to_text rt codecs bytes
            (has_binary_chunk chunks)
            (charset_from_content_type content_type))
          (compute_text_available codecs chunks content_type)
  unfolding decode_bytes_to_text compute_text_available
  decode_described chunks content_type bytes = elim (Bool-cases (has_binary_chunk chunks)) [
    | inr texts ↦ rw (texts) (inl (has_binary_chunk-AreTexts chunks texts, refl, refl))
    | inl some_binary ↦
        let here = has_binary_chunk-HasBinary chunks some_binary in
        rw (some_binary) (elim (charset_described (charset_from_content_type content_type) bytes) [
          | inl (decode, found, read, supported) ↦
              inr (inl (here, (decode, found, read, supported)))
          | inr (gone, read, unsupported) ↦ inr (inr (here, gone, read, unsupported))
        ])
  ]

  -- Whatever the workers answer, a result keeps the wire byte count and the encoding of the body.
  -- Its bytes are those of the chunks in turn, or, where the encoding is br, zstd, gzip or deflate in
  -- whatever case, what the decompressor for it returns, with their number. Its raw text is these
  -- bytes read as UTF-8, or by the decoder for the charset where there is one and a chunk is binary.
  -- The text mode is off exactly where a chunk is binary and there is no decoder.
  pub decode_body_described :
      (workers : Workers) (body : BodyState) (r : DecodeResult)
      → decode_body rt codecs workers body ≡ ok r
      → (r.wire_bytes ≡ body.wire_bytes)
        × (r.content_encoding ≡ body.content_encoding)
        × BytesOf codecs (payloads rt body.chunks) body.content_encoding r.bytes r.decoded_bytes
        × TextOf rt codecs body.chunks
            (charset_from_content_type body.content_type)
            r.bytes
            r.raw_text
            r.text_available
  decode_body_described workers body r done =
      let carried = decode_body-Carries rt codecs workers body r done in
      (
        carried.wire_bytes,
        carried.content_encoding,
        decompress_body_described codecs (payloads rt body.chunks) body.content_encoding
            (record { bytes = r.bytes; decoded_bytes = r.decoded_bytes }) carried.bytes,
        rw (carried.raw_text, carried.text_available)
            (decode_described body.chunks body.content_type r.bytes),
      )
