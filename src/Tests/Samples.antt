-- ===== src/Tests/Samples.antt =====
-- The inputs that the tests share.
use protospy.Prelude.{ℕ, false, Option, none, some, [], ◌∷◌, codes, Text, text_eq, if◌then◌else◌}
use protospy.Wire.{text, BodyData, no_body, Direction, Event, EventMessage, str, Value, nil, cons}
use protospy.Runtime.{Runtime}
use protospy.Store.Types.{Exchange, BodyState}
use protospy.Store.Reducer.{Table, seed}

-- Texts are their own bytes, and every text parses to a string.
abbrev pub plain_runtime : Runtime
plain_runtime = record {
  json_parse = λ t. some (str t);
  atob = λ t. some t;
  decode_utf8 = λ bytes. bytes;
  encode_utf8 = λ t. t;
}

abbrev pub chunk_event : Text → ℕ → BodyData
chunk_event t total = record {
  content = some (record { offset = 0; length = total; payload = text t });
  trailers = none;
  at_end = false;
  total_bytes = total;
}

abbrev pub raw_body : BodyState
raw_body = record {
  chunks = [];
  at_end = false;
  wire_bytes = 7;
  decoded_bytes = none;
  content_encoding = none;
  content_type = none;
  sse_state = none;
}

abbrev pub with_bytes : ℕ → ℕ → Exchange
with_bytes id n = record (seed id (codes "t") none) {
  response_body = some (record raw_body { wire_bytes = n });
}

-- three exchanges; the payload of the first two is above the cap
abbrev pub big_table : Table
big_table = record {
  exchanges =
      (1, with_bytes 1 300_000_000) ∷ (2, with_bytes 2 300_000_000) ∷ (3, with_bytes 3 5) ∷ [];
  ids = 1 ∷ 2 ∷ 3 ∷ [];
}

abbrev pub small_table : Table
small_table = record { exchanges = (4, with_bytes 4 10) ∷ []; ids = 4 ∷ [] }

abbrev pub request_event : ℕ → EventMessage
request_event id = record {
  exchange = record { exchange_id = id; timestamp = codes "now" };
  direction = Direction.request;
  event =
      Event.request (codes "GET") (codes "/a") (codes "HTTP/1.1")
        (record { name = codes "Traceparent"; value = codes "00-abc-01" } ∷ []) no_body;
}

-- Takes the text `null` only.
abbrev pub strict_runtime : Runtime
strict_runtime = record {
  json_parse = λ t. if text_eq t (codes "null") then some Value.null else none;
  atob = λ t. some t;
  decode_utf8 = λ bytes. bytes;
  encode_utf8 = λ t. t;
}

abbrev pub one_item : Value
one_item = Value.arr (cons Value.null nil)

-- Recovers an array of any text.
abbrev pub recovering : Text → Option Value
recovering t = some one_item
