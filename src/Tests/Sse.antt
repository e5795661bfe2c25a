-- ===== src/Tests/Sse.antt =====
-- The parser of event streams at concrete inputs.
use mathlib.Core.List.{foldl, flatten}
use protospy.Prelude.{◌≡◌, refl, [], ◌∷◌, ◌++◌, codes, map}
use protospy.Sse.{parse_sse_block, parse_sse_body}
use protospy.Sse.Stream.{create_sse_stream_state}
use protospy.Sse.Chunks.{feed_retained, feed_retained-flatten}
use protospy.Tests.Samples.{plain_runtime}

feed_retained-flatten_example :
    foldl
      (feed_retained plain_runtime 1)
      (feed_retained plain_runtime 1 create_sse_stream_state (codes "data: a\n"))
      (codes "\ndata" ∷ codes ": b\n\n" ∷ [])
    ≡ feed_retained plain_runtime 1 create_sse_stream_state
        (codes "data: a\n" ++ flatten (codes "\ndata" ∷ codes ": b\n\n" ∷ []))
feed_retained-flatten_example =
    feed_retained-flatten plain_runtime 1 create_sse_stream_state (codes "data: a\n")
      (codes "\ndata" ∷ codes ": b\n\n" ∷ [])

parse_sse_body_runs :
    map
      (λ e. e.content)
      (parse_sse_body plain_runtime (codes "event: x\ndata: 1\ndata:2\n\n\n: note\n\ndata: 3"))
    ≡ codes "1\n2" ∷ codes "3" ∷ []
unfolding parse_sse_body parse_sse_block
parse_sse_body_runs = refl
