-- ===== src/Sse/Stream.antt =====
-- ui/src/body/sse-stream.ts: the incremental parser. A call takes the old state and returns the
-- new one.
use protospy.Prelude.{
  ℕ, ◌-◌, true, false, ◌&&◌, none, some, List, [], ◌∷◌, ◌++◌, Text, length, drop, cons_head, leb,
  ◌==◌, if◌then◌else◌,
}
use protospy.Wire.{BodyChunk, text, binary}
use protospy.Runtime.{Runtime, Result, ok, thrown}
use protospy.Sse.{SseEvent, parse_parts}

pub record SseStreamState : Type 0 where
  pub events : List SseEvent
  pub total_event_count : ℕ
  pub parser_remainder : Text

abbrev pub max_sse_events : ℕ
max_sse_events = 10_000

unfoldable pub create_sse_stream_state : SseStreamState
create_sse_stream_state = record { events = []; total_event_count = 0; parser_remainder = [] }

unfoldable pub chunk_to_text : Runtime → BodyChunk → Result Text
chunk_to_text rt (text t) = ok t
chunk_to_text rt (binary b) = elim (rt.atob b) [
  | none ↦ thrown
  | some bytes ↦ ok (rt.decode_utf8 bytes)
]

-- `text.split(/\n\n/)`
unfoldable pub split_blank : Text → List Text
unfolding cons_head
split_blank [] = [] ∷ []
split_blank (a ∷ []) = (a ∷ []) ∷ []
split_blank (a ∷ b ∷ s) = elim (a == b'\n' && b == b'\n') [
  | true ↦ [] ∷ split_blank s
  | false ↦ cons_head a (split_blank (b ∷ s))
]

-- `parts.pop()`: the parts that stay, and the one that is taken off
unfoldable pub init_parts : List Text → List Text
init_parts [] = []
init_parts (p ∷ []) = []
init_parts (p ∷ q ∷ ps) = p ∷ init_parts (q ∷ ps)

unfoldable pub last_part : List Text → Text
last_part [] = []
last_part (p ∷ []) = p
last_part (p ∷ q ∷ ps) = last_part (q ∷ ps)

-- `newEvents.length > 0 ? [...prev.events, ...newEvents] : prev.events`
unfoldable pub add_events : List SseEvent → List SseEvent → List SseEvent
add_events old [] = old
add_events old (e ∷ es) = old ++ e ∷ es

-- `feedChunk` behind its split: all parts but the last are parsed, the last is carried forward
unfoldable pub absorb : Runtime → SseStreamState → List Text → SseStreamState
unfolding init_parts last_part add_events
absorb rt prev parts =
    let found = parse_parts rt (init_parts parts) prev.total_event_count in
    record {
      events = add_events prev.events found.0;
      total_event_count = found.1;
      parser_remainder = last_part parts;
    }

unfoldable pub feed_chunk : Runtime → SseStreamState → Text → SseStreamState
unfolding split_blank absorb
feed_chunk rt prev chunk_text = absorb rt prev (split_blank (prev.parser_remainder ++ chunk_text))

unfoldable pub apply_retention : ℕ → SseStreamState → SseStreamState
apply_retention max state =
    if leb (length state.events) max
    then state
    else record state { events = drop (length state.events - max) state.events }
