-- ===== src/Store/Bodies.antt =====
-- A body over the stream of its `BodyData` events (`appendBodyData` of ui/src/state/reducer.ts).
use mathlib.Core.List.{foldl, flatten}
use protospy.Prelude.{
  ℕ, ◌≡◌, refl, sym, ap, ◌∙◌, Option, none, some, List, [], ◌∷◌, ◌++◌, append_assoc, append-nil,
  arith, Text,
}
use protospy.Wire.{BodyChunk, BodyContent, BodyData}
use protospy.Runtime.{Runtime, Result, ok, ◌>>=◌, steps_return}
use protospy.Sse.Stream.{SseStreamState, max_sse_events, feed_chunk, apply_retention, chunk_to_text}
use protospy.Sse.Chunks.{feed_retained, feed_retained-flatten}
use protospy.Store.Types.{BodyState}
use protospy.Store.Reducer.{add_chunk, append_body_data, append_to, feed_payload}

module _ (rt : Runtime) where
  -- the events of one body, one after the other
  abbrev pub append_all : BodyState → List BodyData → Result BodyState
  append_all body [] = ok body
  append_all body (e ∷ es) = do body' ← append_body_data rt (some body) e; append_all body' es

abbrev pub cons_payload : Option BodyContent → List BodyChunk → List BodyChunk
cons_payload none chunks = chunks
cons_payload (some content) chunks = content.payload ∷ chunks

-- the payloads that the events carry, in order
abbrev pub payloads : List BodyData → List BodyChunk
payloads [] = []
payloads (e ∷ es) = cons_payload e.content (payloads es)

abbrev pub last_total : ℕ → List BodyData → ℕ
last_total n [] = n
last_total n (e ∷ es) = last_total e.total_bytes es

-- What a raw body is after the events: it holds the payloads in order, the last byte count, and
-- the headers that it had.
pub record Accumulates (body : BodyState) (es : List BodyData) (end : BodyState) : Type 0 where
  pub chunks : end.chunks ≡ body.chunks ++ payloads es
  pub wire_bytes : end.wire_bytes ≡ last_total body.wire_bytes es
  pub raw : end.sse_state ≡ none
  pub content_type : end.content_type ≡ body.content_type
  pub content_encoding : end.content_encoding ≡ body.content_encoding

abbrev appended : BodyState → BodyData → BodyState
appended body e = record body {
  chunks = add_chunk body.chunks e.content;
  at_end = e.at_end;
  wire_bytes = e.total_bytes;
}

append_body_data_raw :
    (rt : Runtime) (body : BodyState) (e : BodyData)
    → body.sse_state ≡ none
    → append_body_data rt (some body) e ≡ ok (appended body e)
unfolding append_body_data
append_body_data_raw rt body e raw = ap (λ s. append_to rt body s e) raw

add_chunk-payloads :
    (chunks : List BodyChunk) (content : Option BodyContent) (rest : List BodyChunk)
    → add_chunk chunks content ++ rest ≡ chunks ++ cons_payload content rest
add_chunk-payloads chunks none rest = refl
add_chunk-payloads chunks (some c) rest = append_assoc chunks (c.payload ∷ []) rest

-- A raw body accumulates the payloads of its events, whatever they are, and never throws.
pub append_all-Accumulates :
    (rt : Runtime) (es : List BodyData) (body : BodyState)
    → body.sse_state ≡ none
    → (end : BodyState) × (append_all rt body es ≡ ok end) × Accumulates body es end
append_all-Accumulates rt [] body raw = (
  body,
  refl,
  record {
    chunks = sym (append-nil body.chunks);
    wire_bytes = refl;
    raw = raw;
    content_type = refl;
    content_encoding = refl;
  },
)
append_all-Accumulates rt (e ∷ es) body raw =
    let (end, run, acc) = append_all-Accumulates rt es (appended body e) raw in
    (
      end,
      rw (append_body_data_raw rt body e raw) run,
      record {
        chunks = acc.chunks ∙ add_chunk-payloads body.chunks e.content (payloads es);
        wire_bytes = acc.wire_bytes;
        raw = acc.raw;
        content_type = acc.content_type;
        content_encoding = acc.content_encoding;
      },
    )

abbrev pub cons_text : Runtime → Option BodyContent → List Text → Result (List Text)
cons_text rt none ts = ok ts
cons_text rt (some content) ts = do t ← chunk_to_text rt content.payload; ok (t ∷ ts)

-- the texts of the payloads that the events carry, in order
abbrev pub texts : Runtime → List BodyData → Result (List Text)
texts rt [] = ok []
texts rt (e ∷ es) = do ts ← texts rt es; cons_text rt e.content ts

feed_payload_step :
    (rt : Runtime) (s : SseStreamState) (content : Option BodyContent) (ts ts' : List Text)
    → cons_text rt content ts' ≡ ok ts
    → (s' : SseStreamState) × (feed_payload rt s content ≡ ok s')
      × (foldl (feed_retained rt max_sse_events) s' ts'
          ≡ foldl (feed_retained rt max_sse_events) s ts)
unfolding feed_payload
feed_payload_step rt s none ts ts' h =
    let same : ts' ≡ ts = ground arith in
    (s, refl, ap (foldl (feed_retained rt max_sse_events) s) same)
feed_payload_step rt s (some content) ts ts' h =
    let (t, decoded, same) = steps_return (chunk_to_text rt content.payload) _ _ h in
    let all : t ∷ ts' ≡ ts = ground arith in
    (
      feed_retained rt max_sse_events s t,
      rw decoded refl,
      ap (foldl (feed_retained rt max_sse_events) s) all,
    )

fed : BodyState → BodyData → SseStreamState → BodyState
fed body e s = record body { sse_state = some s; at_end = e.at_end; wire_bytes = e.total_bytes }

append_body_data_sse :
    (rt : Runtime) (body : BodyState) (e : BodyData) (s s' : SseStreamState)
    → body.sse_state ≡ some s
    → feed_payload rt s e.content ≡ ok s'
    → append_body_data rt (some body) e ≡ ok (fed body e s')
unfolding append_body_data fed
append_body_data_sse rt body e s s' h k = ap (λ o. append_to rt body o e) h ∙ (rw k refl)

-- An SSE body whose payloads all decode never throws. Its stream state is that of the decoded
-- texts fed one after the other, each followed by the retention, and it stores no chunk.
append_all-foldl :
    (rt : Runtime) (es : List BodyData) (ts : List Text) (body : BodyState) (s : SseStreamState)
    → body.sse_state ≡ some s
    → texts rt es ≡ ok ts
    → (end : BodyState) × (append_all rt body es ≡ ok end)
      × (end.sse_state ≡ some (foldl (feed_retained rt max_sse_events) s ts))
      × (end.chunks ≡ body.chunks)
      × (end.wire_bytes ≡ last_total body.wire_bytes es)
unfolding fed
append_all-foldl rt [] ts body s h k =
    let none_left : [] ≡ ts = ground arith in
    (
      body,
      refl,
      h ∙ ap (λ l. some (foldl (feed_retained rt max_sse_events) s l)) none_left,
      refl,
      refl,
    )
append_all-foldl rt (e ∷ es) ts body s h k =
    let (ts', later, first) = steps_return (texts rt es) _ _ k in
    let (s', fed_first, same) = feed_payload_step rt s e.content ts ts' first in
    let (end, run, stream, chunks, total) =
      append_all-foldl rt es ts' (fed body e s') s' refl later in
    (
      end,
      rw (append_body_data_sse rt body e s s' h fed_first) run,
      stream ∙ ap some same,
      chunks,
      total,
    )

-- A streamed SSE body ends with the state that one parse of the whole decoded text gives, cut once
-- to the cap, however the text was cut into events; it stores no chunk.
pub append_all-feed_chunk :
    (rt : Runtime) (es : List BodyData) (t : Text) (ts : List Text) (body : BodyState)
    (s : SseStreamState)
    → body.sse_state ≡ some s
    → texts rt es ≡ ok (t ∷ ts)
    → (end : BodyState) × (append_all rt body es ≡ ok end)
      × (end.sse_state ≡ some (apply_retention max_sse_events (feed_chunk rt s (t ++ flatten ts))))
      × (end.chunks ≡ body.chunks)
      × (end.wire_bytes ≡ last_total body.wire_bytes es)
append_all-feed_chunk rt es t ts body s h k =
    let (end, run, stream, chunks, total) = append_all-foldl rt es (t ∷ ts) body s h k in
    (end, run, stream ∙ ap some (feed_retained-flatten rt max_sse_events s t ts), chunks, total)
