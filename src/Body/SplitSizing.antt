-- ===== src/Body/SplitSizing.antt =====
-- ui/src/body/split-sizing.ts: the first width of the request pane.
use protospy.Prelude.{ℕ, Option, none, some}
use protospy.Store.Types.{BodyState}

abbrev pub body_split_min_pct : ℕ
body_split_min_pct = 15

unfoldable pub compute_body_split_percent : Option BodyState → ℕ
compute_body_split_percent none = body_split_min_pct
compute_body_split_percent (some body) = 50
