-- ===== src/Exchanges/Size.antt =====
-- The size display of ui/src/lib/exchange.ts, and the two tests on an exchange there.
use protospy.Prelude.{
  ℕ, Bool, false, Option, none, some, ◌++◌, Text, codes, to_lower, starts_with, ◌==◌, if◌then◌else◌,
}
use protospy.Store.Types.{BodyState, Exchange}
use protospy.Format.{fmt_bytes}
use protospy.Exchanges.Headers.{short_encoding}
use protospy.Exchanges.Filter.{is_bulk_operation}

pub record SizeView : Type 0 where
  pub wire_bytes : Option ℕ
  pub decoded_bytes : Option ℕ
  pub encoding : Option Text
  pub tooltip : Option Text

-- the decoded size where it is known and differs
unfoldable pub distinct : ℕ → Option ℕ → Option ℕ
distinct wire none = none
distinct wire (some decoded) = if decoded == wire then none else some decoded

unfoldable pub tooltip_of : ℕ → Option ℕ → Text → Text
unfolding fmt_bytes
tooltip_of wire (some decoded) encoding =
    fmt_bytes wire
    ++ codes " on the wire / "
    ++ fmt_bytes decoded
    ++ codes " after decompression ("
    ++ encoding
    ++ codes ")"
tooltip_of wire none encoding =
    fmt_bytes wire
    ++ codes " on the wire ("
    ++ encoding
    ++ codes "; decoded size unknown until the body is opened)"

-- the view of a body that is there
unfoldable pub encoded_view : ℕ → Option ℕ → Option Text → SizeView
unfolding distinct tooltip_of
encoded_view wire decoded none = record {
  wire_bytes = some wire;
  decoded_bytes = none;
  encoding = none;
  tooltip = none;
}
encoded_view wire decoded (some encoding) = record {
  wire_bytes = some wire;
  decoded_bytes = distinct wire decoded;
  encoding = some encoding;
  tooltip = some (tooltip_of wire (distinct wire decoded) encoding);
}

-- `buildSizeView`
unfoldable pub build_size_view : Option ℕ → Option ℕ → Option Text → SizeView
unfolding encoded_view short_encoding
build_size_view none decoded content_encoding = record {
  wire_bytes = none;
  decoded_bytes = none;
  encoding = none;
  tooltip = none;
}
build_size_view (some wire) decoded content_encoding =
    encoded_view wire decoded (short_encoding content_encoding)

unfoldable pub size_view : Option BodyState → SizeView
unfolding build_size_view
size_view none = build_size_view none none none
size_view (some body) =
    build_size_view (some body.wire_bytes) body.decoded_bytes body.content_encoding

unfoldable pub response_size_view : Exchange → SizeView
unfolding size_view
response_size_view ex = size_view ex.response_body

-- `sizeText` by the two sizes of the view
unfoldable pub sizes_text : Option ℕ → Option ℕ → Text
unfolding fmt_bytes
sizes_text none decoded = codes "—"
sizes_text (some wire) none = fmt_bytes wire
sizes_text (some wire) (some decoded) = fmt_bytes wire ++ codes " / " ++ fmt_bytes decoded

unfoldable pub size_text : SizeView → Text
unfolding sizes_text
size_text view = sizes_text view.wire_bytes view.decoded_bytes

unfoldable pub fmt_bytes_or_dash : Option ℕ → Text
unfolding fmt_bytes
fmt_bytes_or_dash none = codes "—"
fmt_bytes_or_dash (some n) = fmt_bytes n

unfoldable pub is_event_stream : Option Text → Bool
unfolding to_lower starts_with
is_event_stream none = false
is_event_stream (some content_type) =
    starts_with (to_lower content_type) (codes "text/event-stream")

unfoldable pub is_sse_exchange : Exchange → Bool
unfolding is_event_stream
is_sse_exchange ex = elim ex.response_body [
  | none ↦ false
  | some body ↦ is_event_stream body.content_type
]

unfoldable pub is_msearch_exchange : Exchange → Bool
unfolding is_bulk_operation
is_msearch_exchange ex = is_bulk_operation ex.uri
