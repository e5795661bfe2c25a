-- ===== src/Store/Types.antt =====
-- ui/src/state/types.ts: bodies and exchanges. An absent property is `none`.
use protospy.Prelude.{ℕ, Bool, Option, List, Text}
use protospy.Wire.{BodyChunk, ProxyHeaders, Direction}
use protospy.Sse.Stream.{SseStreamState}

pub record BodyState : Type 0 where
  pub chunks : List BodyChunk
  pub at_end : Bool
  pub wire_bytes : ℕ
  pub decoded_bytes : Option ℕ
  pub content_encoding : Option Text
  pub content_type : Option Text
  pub sse_state : Option SseStreamState

-- `kind` has the one value "generic"
pub record ExchangeError : Type 0 where
  pub direction : Direction
  pub message : Text

pub record Exchange : Type 0 where
  pub id : ℕ
  pub timestamp : Text
  pub method : Option Text
  pub uri : Option Text
  pub version : Option Text
  pub request_headers : Option ProxyHeaders
  pub request_body : Option BodyState
  pub status : Option Text
  pub response_version : Option Text
  pub response_headers : Option ProxyHeaders
  pub elapsed_ms : Option ℕ
  pub response_body : Option BodyState
  pub error : Option ExchangeError
  pub trace_id : Option Text
