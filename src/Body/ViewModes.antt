-- ===== src/Body/ViewModes.antt =====
-- ui/src/body/view-modes.ts: the view modes of a body by its content kind.
use mathlib.Core.List.{foldl}
use protospy.Prelude.{
  ℕ, Bool, true, false, Option, none, some, List, [], ◌∷◌, ◌++◌, Text, codes, any, ltb,
  if◌then◌else◌,
}

pub data ViewMode : Type 0 where
  tree formatted rendered text summary hex : ViewMode

pub data ContentKind : Type 0 where
  json ndjson html xml image text binary : ContentKind

unfoldable pub mode_label : ViewMode → Text
mode_label tree = codes "Tree"
mode_label formatted = codes "Formatted"
mode_label rendered = codes "Rendered"
mode_label ViewMode.text = codes "Text"
mode_label summary = codes "Summary"
mode_label hex = codes "Hex"

unfoldable pub mode_precedence : ViewMode → ℕ
mode_precedence tree = 10
mode_precedence formatted = 10
mode_precedence rendered = 10
mode_precedence ViewMode.text = 30
mode_precedence hex = 40
mode_precedence summary = 50

-- `===` on modes
unfoldable pub same_mode : ViewMode → ViewMode → Bool
same_mode tree tree = true
same_mode formatted formatted = true
same_mode rendered rendered = true
same_mode ViewMode.text ViewMode.text = true
same_mode summary summary = true
same_mode hex hex = true
same_mode _ _ = false

unfoldable pub with_text_and_hex : List ViewMode → Bool → List ViewMode
with_text_and_hex base text_available =
    base ++ (if text_available then ViewMode.text ∷ [] else []) ++ hex ∷ []

unfoldable pub selectable_modes : ContentKind → Bool → List ViewMode
unfolding with_text_and_hex
selectable_modes json text_available = with_text_and_hex (tree ∷ []) text_available
selectable_modes ndjson text_available = with_text_and_hex (tree ∷ []) text_available
selectable_modes html text_available = with_text_and_hex (formatted ∷ []) text_available
selectable_modes xml text_available = with_text_and_hex (formatted ∷ []) text_available
selectable_modes image text_available = rendered ∷ hex ∷ []
selectable_modes ContentKind.text text_available = ViewMode.text ∷ hex ∷ []
selectable_modes binary text_available = summary ∷ hex ∷ []

-- the step of the `reduce` in `defaultMode`
unfoldable pub better_mode : ViewMode → ViewMode → ViewMode
unfolding mode_precedence
better_mode best m = if ltb (mode_precedence m) (mode_precedence best) then m else best

-- `modes.reduce(…)` without a start value; the source's lists are never empty
unfoldable pub best_mode : List ViewMode → ViewMode
unfolding better_mode
best_mode [] = summary
best_mode (m ∷ ms) = foldl better_mode m ms

unfoldable pub default_mode : ContentKind → Bool → ViewMode
unfolding selectable_modes best_mode
default_mode binary text_available = summary
default_mode kind text_available = best_mode (selectable_modes kind text_available)

unfoldable pub resolve_mode : Option ViewMode → ContentKind → Bool → ViewMode
unfolding selectable_modes default_mode same_mode
resolve_mode none kind text_available = default_mode kind text_available
resolve_mode (some stored) kind text_available =
    if any (same_mode stored) (selectable_modes kind text_available)
    then stored
    else default_mode kind text_available
