-- ===== src/Tests/Body.antt =====
-- The view modes at concrete inputs.
use protospy.Prelude.{◌≡◌, refl, true, some}
use protospy.Body.ViewModes.{tree, rendered, image, resolve_mode}

-- An image has no tree: the stored mode is left for the default one.
stale_mode_is_left : resolve_mode (some tree) image true ≡ rendered
unfolding resolve_mode
stale_mode_is_left = refl
