-- ===== src/Tests/Traces.antt =====
-- The trace rail at concrete inputs.
use protospy.Prelude.{
  ◌≡◌, refl, ℕ, ◌≤◌, ◌<◌, Option, none, some, List, [], ◌∷◌, Text, codes, All, map, ltb,
}
use protospy.Store.Types.{Exchange}
use protospy.Tests.Samples.{with_bytes}
use protospy.Traces.Groups.{card, row, grouped_exchange_list}
use protospy.Traces.Tally.{tally, shown_by}
use protospy.Traces.Cards.{tally-grouped_exchange_list}
use protospy.Traces.Lanes.{pack_lanes, lane_count, trace_rail_width}
use protospy.Traces.Packing.{ArePacked}
use protospy.Traces.Depth.{covering}
use protospy.Traces.Rail.{pack_lanes-ArePacked, pack_lanes_depth}

-- two traces that overlap, one behind them, one row without a trace and one that stands alone
abbrev rows : List (Option Text)
rows =
    some (codes "a")
    ∷ some (codes "b")
    ∷ some (codes "a")
    ∷ none
    ∷ some (codes "b")
    ∷ some (codes "c")
    ∷ some (codes "d")
    ∷ some (codes "c")
    ∷ []

rows_take_two_lanes : map (λ i. i.lane) (pack_lanes rows).intervals ≡ 0 ∷ 1 ∷ 0 ∷ []
unfolding pack_lanes
rows_take_two_lanes = refl

rail_of_two_lanes : trace_rail_width 2 ≡ 18
unfolding trace_rail_width
rail_of_two_lanes = refl

pack_lanes-ArePacked_example :
    ArePacked (pack_lanes rows).intervals
    × All (λ p. p.lane < lane_count (pack_lanes rows)) (pack_lanes rows).intervals
pack_lanes-ArePacked_example = pack_lanes-ArePacked rows

pack_lanes_depth_example :
    (row : ℕ) × (lane_count (pack_lanes rows) ≤ covering row (pack_lanes rows).intervals)
pack_lanes_depth_example = pack_lanes_depth rows

-- an exchange of a trace
abbrev of_trace : ℕ → Text → Exchange
of_trace id t = record (with_bytes id 1) { trace_id = some t }

abbrev mixed : List Exchange
mixed =
    of_trace 1 (codes "a") ∷ with_bytes 2 1 ∷ of_trace 3 (codes "b") ∷ of_trace 4 (codes "a") ∷ []

-- one card for the two of the trace "a", and two rows
mixed_runs :
    grouped_exchange_list mixed
    ≡ card (codes "a") (of_trace 1 (codes "a") ∷ of_trace 4 (codes "a") ∷ [])
      ∷ row (with_bytes 2 1)
      ∷ row (of_trace 3 (codes "b"))
      ∷ []
unfolding grouped_exchange_list
mixed_runs = refl

tally-grouped_exchange_list_example :
    tally (λ x. ltb 1 x.id) (shown_by (grouped_exchange_list mixed)) ≡ tally (λ x. ltb 1 x.id) mixed
tally-grouped_exchange_list_example = tally-grouped_exchange_list (λ x. ltb 1 x.id) mixed
