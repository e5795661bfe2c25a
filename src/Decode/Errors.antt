-- ===== src/Decode/Errors.antt =====
-- When `decodeBody` of ui/src/body/decode.ts throws.
use mathlib.Core.List.{flatten}
use protospy.Prelude.{
  ◌≡◌, refl, sym, ap, ◌∙◌, ◌⊎◌, inl, inr, none, some, List, [], ◌∷◌, ◌++◌, Option-cases, ℕ,
}
use protospy.Wire.{BodyChunk, binary}
use protospy.Runtime.{Runtime, ok, ok_injective, thrown_or_ok, steps_return}
use protospy.Store.Types.{BodyState}
use protospy.Decode.Bytes.{Codecs, or_thrown, chunk_to_bytes, chunks_to_bytes, decompress_body}
use protospy.Decode.Copying.{concatenate-flatten}
use protospy.Decode.Steps.{body_bytes}

module _ (rt : Runtime) where
  -- `atob` does not take the chunk.
  abbrev pub IsBroken : BodyChunk → Type 0
  IsBroken (BodyChunk.text t) = ⊥
  IsBroken (binary b) = rt.atob b ≡ none

  abbrev pub HasBroken : List BodyChunk → Type 0
  HasBroken [] = ⊥
  HasBroken (chunk ∷ chunks) = IsBroken chunk ⊎ HasBroken chunks

  -- The bytes of a chunk that is not broken.
  abbrev pub payload_of : BodyChunk → List ℕ
  payload_of (BodyChunk.text t) = rt.encode_utf8 t
  payload_of (binary b) = elim (rt.atob b) [ none ↦ [] | some bytes ↦ bytes ]

  -- The bytes of all chunks, one behind the other.
  abbrev pub payloads : List BodyChunk → List ℕ
  payloads [] = []
  payloads (chunk ∷ chunks) = payload_of chunk ++ payloads chunks

  chunk_to_bytes-payload :
      (chunk : BodyChunk) (bytes : List ℕ)
      → chunk_to_bytes rt chunk ≡ ok bytes
      → bytes ≡ payload_of chunk
  unfolding chunk_to_bytes or_thrown
  chunk_to_bytes-payload (BodyChunk.text t) bytes read = sym (ok_injective read)
  chunk_to_bytes-payload (binary b) bytes read = elim (Option-cases (rt.atob b)) [
    | inl broken ↦ absurd (thrown_or_ok (sym (ap or_thrown broken) ∙ read))
    | inr (found, same) ↦ rw (payload_of, same) (ok_injective (sym read ∙ ap or_thrown same))
  ]

  pub chunks_to_bytes-payloads :
      (chunks : List BodyChunk) (arrays : List (List ℕ))
      → chunks_to_bytes rt chunks ≡ ok arrays
      → flatten arrays ≡ payloads chunks
  unfolding chunks_to_bytes chunk_to_bytes or_thrown flatten
  chunks_to_bytes-payloads [] arrays read = ap flatten (sym (ok_injective read))
  chunks_to_bytes-payloads (chunk ∷ chunks) arrays read =
      let (bytes, first, then_rest) = steps_return (chunk_to_bytes rt chunk) _ _ read in
      let (rest, later, same) = steps_return (chunks_to_bytes rt chunks) _ _ then_rest in
      let ih = chunks_to_bytes-payloads chunks rest later in
      ap flatten (sym (ok_injective same))
      ∙ ap (λ u. u ++ flatten rest) (chunk_to_bytes-payload chunk bytes first)
      ∙ ap (λ u. payload_of chunk ++ u) ih

module _ (rt : Runtime) (codecs : Codecs) where
  pub body_bytes_read :
      (body : BodyState) (arrays : List (List ℕ))
      → chunks_to_bytes rt body.chunks ≡ ok arrays
      → body_bytes rt codecs body
        ≡ decompress_body codecs (payloads rt body.chunks) body.content_encoding
  unfolding body_bytes
  body_bytes_read body arrays read =
      rw
        (
          body_bytes,
          read,
          concatenate-flatten arrays,
          chunks_to_bytes-payloads rt body.chunks arrays read,
        )
        refl
