-- ===== src/Tests/Viewer.antt =====
-- The tree viewer at concrete inputs.
use protospy.Prelude.{◌≡◌, refl, List, some, [], ◌∷◌, codes}
use protospy.Wire.{Value}
use protospy.Runtime.{ok}
use protospy.JsonTree.Rows.{flatten_forest}
use protospy.JsonParse.Documents.{with_recovered}
use protospy.JsonParse.Worker.{OutMessage, ndjson_response, build_ndjson}
use protospy.Viewer.Forest.{many, build_forest}
use protospy.Viewer.State.{ViewerState, mount, toggle, show_all, viewer_rows}
use protospy.Viewer.Reached.{
  Reached, mounted, clicked, toggled, shown_all, ndjson_props, Reached-rows,
}
use protospy.Tests.Samples.{strict_runtime, one_item, recovering}

abbrev documents : List Value
documents = Value.null ∷ one_item ∷ []

-- the answer to a body whose last line is cut off
abbrev answer : OutMessage
answer = ndjson_response (with_recovered (Value.null ∷ []) (some one_item))

answered : build_ndjson strict_runtime recovering (codes "null\n[nu") ≡ ok answer
unfolding build_ndjson
answered = refl

answer_documents : answer.documents ≡ some documents
unfolding ndjson_response
answer_documents = refl

abbrev two_clicks : ViewerState
two_clicks = let p = ndjson_props documents answer in toggle p 1 (show_all p 1 1 (mount p))

two_clicks-Reached : Reached (ndjson_props documents answer) two_clicks
two_clicks-Reached = clicked (clicked (mounted refl) (shown_all 1 1) refl) (toggled 1) refl

Reached-rows_example :
    viewer_rows (ndjson_props documents answer) two_clicks
    ≡ flatten_forest
        (build_forest (many documents) answer.truncated).roots
        two_clicks.expanded
        two_clicks.limits
Reached-rows_example =
    Reached-rows strict_runtime recovering (codes "null\n[nu") answer documents two_clicks answered
      answer_documents two_clicks-Reached
