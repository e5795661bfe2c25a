-- ===== src/Traces/Rail.antt =====
-- `packLanes` of ui/src/components/trace-rail.tsx as a whole.
use protospy.Prelude.{ℕ, ◌≤◌, ◌<◌, Option, List, Text, All, All-weaken}
use protospy.Traces.Lanes.{place_spans, pack_lanes, lane_count}
use protospy.Traces.Packing.{ArePacked, IsOn, place_spans-IsPacking}
use protospy.Traces.Spans.{packed_spans, packed_spans-IsForward, packed_spans-IsSorted}
use protospy.Traces.Depth.{covering, place_spans_depth}

-- Of two intervals on one lane the one placed later begins behind the end of the other, and every
-- interval lies on one of the lanes that are counted.
pub pack_lanes-ArePacked :
    (trace_ids : List (Option Text))
    → ArePacked (pack_lanes trace_ids).intervals
      × All (λ p. p.lane < lane_count (pack_lanes trace_ids)) (pack_lanes trace_ids).intervals
unfolding pack_lanes
pack_lanes-ArePacked trace_ids =
    let spans = packed_spans trace_ids in
    let packing = place_spans-IsPacking spans (packed_spans-IsForward trace_ids) in
    let packed = place_spans spans in
    (
      packing.packed,
      All-weaken {P = λ p. IsOn packed.lane_ends p} {Q = λ p. p.lane < lane_count packed}
          (λ p on. on.lane_exists) packed.intervals packing.on_lanes,
    )

-- There is a row that at least as many intervals cover as there are lanes.
pub pack_lanes_depth :
    (trace_ids : List (Option Text))
    → (row : ℕ) × (lane_count (pack_lanes trace_ids)
        ≤ covering row (pack_lanes trace_ids).intervals)
unfolding pack_lanes
pack_lanes_depth trace_ids =
    place_spans_depth (packed_spans trace_ids) (packed_spans-IsForward trace_ids)
      (packed_spans-IsSorted trace_ids)
