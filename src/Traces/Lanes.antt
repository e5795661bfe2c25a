-- ===== src/Traces/Lanes.antt =====
-- `packLanes` and `traceRailWidth` of ui/src/components/trace-rail.tsx. The map of the spans is
-- their list in the order of insertion.
use mathlib.Core.List.{foldl}
use mathlib.Core.Option
use protospy.Prelude.{
  ℕ, zero, suc, ◌+◌, ◌-◌, ◌*◌, Option, none, some, List, [], ◌∷◌, ◌++◌, Text, text_eq, filter,
  length, leb, ltb, if◌then◌else◌,
}

-- `TraceInterval` without its lane
pub record Span : Type 0 where
  pub trace_id : Text
  pub first : ℕ
  pub last : ℕ
  pub members : ℕ

-- `TraceInterval`
pub record Interval : Type 0 where
  pub span : Span
  pub lane : ℕ

-- `s.last = i; s.count += 1`
abbrev pub extend_span : ℕ → Span → Span
extend_span i s = record s { last = i; members = s.members + 1 }

-- one row with a trace id; the span of a new id is appended
unfoldable pub add_row : Text → ℕ → List Span → List Span
unfolding text_eq
add_row id i [] = record { trace_id = id; first = i; last = i; members = 1 } ∷ []
add_row id i (s ∷ spans) =
    if text_eq s.trace_id id then extend_span i s ∷ spans else s ∷ add_row id i spans

-- the loop over the rows from the `i`-th on
unfoldable pub collect_spans : ℕ → List (Option Text) → List Span → List Span
unfolding add_row
collect_spans i [] spans = spans
collect_spans i (none ∷ ids) spans = collect_spans (suc i) ids spans
collect_spans i (some [] ∷ ids) spans = collect_spans (suc i) ids spans
collect_spans i (some (c ∷ id) ∷ ids) spans = collect_spans (suc i) ids (add_row (c ∷ id) i spans)

-- `.filter((s) => s.count > 1)`
unfoldable pub shared_spans : List Span → List Span
shared_spans spans = filter (λ s. ltb 1 s.members) spans

-- `.sort((a, b) => a.first - b.first)`, which is stable
unfoldable pub insert_span : Span → List Span → List Span
insert_span s [] = s ∷ []
insert_span s (t ∷ spans) = if leb s.first t.first then s ∷ t ∷ spans else t ∷ insert_span s spans

unfoldable pub sort_spans : List Span → List Span
unfolding insert_span
sort_spans [] = []
sort_spans (s ∷ spans) = insert_span s (sort_spans spans)

-- `laneEnds.findIndex((end) => end < s.first)`, `none` for -1
unfoldable pub find_lane : ℕ → List ℕ → Option ℕ
find_lane first [] = none
find_lane first (end ∷ ends) =
    if ltb end first then some 0 else Option.map suc (find_lane first ends)

-- `laneEnds[lane] = last`
unfoldable pub set_end : ℕ → ℕ → List ℕ → List ℕ
set_end lane last [] = []
set_end zero last (end ∷ ends) = last ∷ ends
set_end (suc lane) last (end ∷ ends) = end ∷ set_end lane last ends

-- the intervals so far, and the variable `laneEnds`
pub record Packed : Type 0 where
  pub intervals : List Interval
  pub lane_ends : List ℕ

-- an interval on a lane of the old ends
abbrev pub put : Span → ℕ → List ℕ → Packed → Packed
put s lane ends p = record {
  intervals = p.intervals ++ record { span = s; lane = lane } ∷ [];
  lane_ends = ends;
}

-- one round of the loop over the spans
unfoldable pub place_span : Packed → Span → Packed
unfolding find_lane set_end
place_span p s = elim (find_lane s.first p.lane_ends) [
  | none ↦ put s (length p.lane_ends) (p.lane_ends ++ s.last ∷ []) p
  | some lane ↦ put s lane (set_end lane s.last p.lane_ends) p
]

unfoldable pub place_spans : List Span → Packed
unfolding place_span
place_spans spans = foldl place_span (record { intervals = []; lane_ends = [] }) spans

-- `packLanes`; the number of lanes is the length of `lane_ends`
unfoldable pub pack_lanes : List (Option Text) → Packed
unfolding collect_spans shared_spans sort_spans place_spans
pack_lanes trace_ids = place_spans (sort_spans (shared_spans (collect_spans 0 trace_ids [])))

abbrev pub lane_count : Packed → ℕ
lane_count p = length p.lane_ends

-- `traceRailWidth`, with the widths of the rail's parts
unfoldable pub trace_rail_width : ℕ → ℕ
trace_rail_width lanes = 5 + 4 + lanes * 3 + (lanes - 1) * 3
