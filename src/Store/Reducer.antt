-- ===== src/Store/Reducer.antt =====
-- `apply` of ui/src/state/reducer.ts, with its helpers. The map and the array that the source
-- changes in place are taken and returned; a thrown exception leaves the caller's as they are,
-- since the store hands in copies.
use protospy.Prelude.{
  ℕ, ◌+◌, Bool, false, Option, none, some, List, [], ◌∷◌, ◌++◌, Text, codes, text_eq, to_lower,
  starts_with, split_on, find, if◌then◌else◌,
}
use protospy.Wire.{
  BodyChunk, BodyContent, BodyData, InitialBody, no_body, not_read, full, Direction, ProxyHeaders,
  Event, EventMessage,
}
use protospy.Runtime.{Runtime, Result, ok, ◌>>=◌}
use protospy.Sse.Stream.{
  SseStreamState, create_sse_stream_state, chunk_to_text, feed_chunk, apply_retention,
  max_sse_events,
}
use protospy.Store.Types.{BodyState, Exchange}
use protospy.JsMap.{get, set}

-- The map of exchanges and the array of ids.
pub record Table : Type 0 where
  pub exchanges : List (ℕ × Exchange)
  pub ids : List ℕ

unfoldable pub get_header : ProxyHeaders → Text → Option Text
unfolding text_eq to_lower
get_header headers name = elim (find (λ h. text_eq (to_lower h.name) (to_lower name)) headers) [
  | none ↦ none
  | some h ↦ some h.value
]

unfoldable pub is_sse_content_type : Option Text → Bool
unfolding to_lower starts_with
is_sse_content_type none = false
is_sse_content_type (some ct) = starts_with (to_lower ct) (codes "text/event-stream")

unfoldable pub wire_bytes_or_zero : Option BodyState → ℕ
wire_bytes_or_zero none = 0
wire_bytes_or_zero (some body) = body.wire_bytes

unfoldable pub exchange_bytes : Exchange → ℕ
unfolding wire_bytes_or_zero
exchange_bytes ex = wire_bytes_or_zero ex.request_body + wire_bytes_or_zero ex.response_body

-- `prev ?? { chunks: [], atEnd: false, wireBytes: 0 }`
abbrev pub base_body : Option BodyState → BodyState
base_body (some prev) = prev
base_body none = record {
  chunks = [];
  at_end = false;
  wire_bytes = 0;
  decoded_bytes = none;
  content_encoding = none;
  content_type = none;
  sse_state = none;
}

-- `tp.split("-")[1]`, where there is such a part
unfoldable pub trace_of_parts : List Text → Option Text → Option Text
trace_of_parts (p ∷ q ∷ ps) old = some q
trace_of_parts _ old = old

-- the trace id of the `traceparent` header, or the old one
unfoldable pub trace_of : Option Text → Option Text → Option Text
unfolding trace_of_parts split_on
trace_of none old = old
trace_of (some []) old = old
trace_of (some (c ∷ tp)) old = trace_of_parts (split_on b'-' (c ∷ tp)) old

-- `prev == null ? { id, timestamp } : { ...prev }`
abbrev pub seed : ℕ → Text → Option Exchange → Exchange
seed id timestamp (some prev) = prev
seed id timestamp none = record {
  id = id;
  timestamp = timestamp;
  method = none;
  uri = none;
  version = none;
  request_headers = none;
  request_body = none;
  status = none;
  response_version = none;
  response_headers = none;
  elapsed_ms = none;
  response_body = none;
  error = none;
  trace_id = none;
}

-- `if (prev == null) ids.push(id)`
abbrev pub push_id : Option Exchange → ℕ → List ℕ → List ℕ
push_id none id ids = ids ++ id ∷ []
push_id (some prev) id ids = ids

-- the end of `apply`: the changed exchange is stored
abbrev pub store_exchange : Table → ℕ → Option Exchange → Table
store_exchange t id none = t
store_exchange t id (some ex) = record {
  exchanges = set id ex t.exchanges;
  ids = push_id (get id t.exchanges) id t.ids;
}

-- the chunks with the payload of an event, if it has one
abbrev pub add_chunk : List BodyChunk → Option BodyContent → List BodyChunk
add_chunk chunks none = chunks
add_chunk chunks (some content) = chunks ++ content.payload ∷ []

module _ (rt : Runtime) where
  -- what both handlers do with the payload of an SSE body
  unfoldable pub feed_payload : SseStreamState → Option BodyContent → Result SseStreamState
  unfolding chunk_to_text
  feed_payload sse none = ok sse
  feed_payload sse (some content) = do
    t ← chunk_to_text rt content.payload
    ok (apply_retention max_sse_events (feed_chunk rt sse t))

  -- the "Data" case of `initialBodyToState`, with the two headers read
  unfoldable pub initial_data :
      BodyData → (content_type content_encoding : Option Text) → Result BodyState
  unfolding feed_payload create_sse_stream_state
  initial_data body content_type content_encoding =
      if is_sse_content_type content_type
      then (do
        sse ← feed_payload create_sse_stream_state body.content
        ok (record {
          chunks = [];
          at_end = body.at_end;
          wire_bytes = body.total_bytes;
          decoded_bytes = none;
          content_encoding = content_encoding;
          content_type = content_type;
          sse_state = some sse;
        }))
      else ok (record {
        chunks = elim body.content [ none ↦ [] | some content ↦ content.payload ∷ [] ];
        at_end = body.at_end;
        wire_bytes = body.total_bytes;
        decoded_bytes = none;
        content_encoding = content_encoding;
        content_type = content_type;
        sse_state = none;
      })

  unfoldable pub initial_body_to_state : InitialBody → ProxyHeaders → Result (Option BodyState)
  unfolding initial_data create_sse_stream_state
  initial_body_to_state no_body headers = ok none
  initial_body_to_state not_read headers = ok (
      some (record {
        chunks = [];
        at_end = false;
        wire_bytes = 0;
        decoded_bytes = none;
        content_encoding = get_header headers (codes "content-encoding");
        content_type = get_header headers (codes "content-type");
        sse_state =
            if is_sse_content_type (get_header headers (codes "content-type"))
            then some create_sse_stream_state
            else none;
      }))
  initial_body_to_state (full body) headers = do
    state ←
        initial_data body (get_header headers (codes "content-type"))
          (get_header headers (codes "content-encoding"))
    ok (some state)

  -- `appendBodyData` behind its choice of a base
  unfoldable pub append_to : BodyState → Option SseStreamState → BodyData → Result BodyState
  unfolding feed_payload
  append_to base (some sse) event = do
    sse' ← feed_payload sse event.content
    ok (record base {
      sse_state = some sse';
      at_end = event.at_end;
      wire_bytes = event.total_bytes;
    })
  append_to base none event = ok (record base {
    chunks = add_chunk base.chunks event.content;
    at_end = event.at_end;
    wire_bytes = event.total_bytes;
  })

  unfoldable pub append_body_data : Option BodyState → BodyData → Result BodyState
  unfolding append_to
  append_body_data prev event = append_to (base_body prev) (base_body prev).sse_state event

  -- the chain of tests on `event.type`; `none` for an event of another type
  unfoldable pub update_exchange : Direction → Event → Exchange → Result (Option Exchange)
  unfolding initial_body_to_state append_body_data trace_of
  update_exchange direction (Event.request method uri version headers body) ex = do
    state ← initial_body_to_state body headers
    ok (
        some (record ex {
          method = some method;
          uri = some uri;
          version = some version;
          request_headers = some headers;
          request_body = state;
          trace_id = trace_of (get_header headers (codes "traceparent")) ex.trace_id;
        }))
  update_exchange direction (Event.response status version headers elapsed_ms body) ex = do
    state ← initial_body_to_state body headers
    ok (
        some (record ex {
          status = some status;
          response_version = some version;
          response_headers = some headers;
          elapsed_ms = some elapsed_ms;
          response_body = state;
        }))
  update_exchange Direction.request (Event.body_data event) ex = do
    state ← append_body_data ex.request_body event
    ok (some (record ex { request_body = some state }))
  update_exchange Direction.response (Event.body_data event) ex = do
    state ← append_body_data ex.response_body event
    ok (some (record ex { response_body = some state }))
  update_exchange direction (Event.error side message) ex =
      ok (some (record ex { error = some (record { direction = side; message = message }) }))
  update_exchange direction Event.unknown ex = ok none

  unfoldable pub apply : Table → EventMessage → Result Table
  apply t msg = do
    changed ← update_exchange msg.direction msg.event (
        seed msg.exchange.exchange_id msg.exchange.timestamp
          (get msg.exchange.exchange_id t.exchanges))
    ok (store_exchange t msg.exchange.exchange_id changed)
