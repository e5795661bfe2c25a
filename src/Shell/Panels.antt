-- ===== src/Shell/Panels.antt =====
-- `getInitialPanelSizes` of ui/src/components/app-shell.tsx, for a viewport width in whole pixels.
use mathlib.Core.Path.{◌≡◌, refl}
use Prim.Native.Nat.{max}
use protospy.Prelude.{ℕ, ◌+◌, ◌-◌, ◌/◌, ◌≤◌, min, Option, none, some, arith}

-- `LIST_MIN_WIDTH_PX`
abbrev pub list_min_width_px : ℕ
list_min_width_px = 26

-- `INSPECTOR_MIN_WIDTH_PX`
abbrev pub inspector_min_width_px : ℕ
inspector_min_width_px = 30

-- `RESIZE_HANDLE_WIDTH_PX`
abbrev pub resize_handle_width_px : ℕ
resize_handle_width_px = 1

pub record PanelSizes : Type 0 where
  pub list : ℕ
  pub inspector : Option ℕ

-- `maxListWidth`; where the difference is negative the maximum is the least width all the same
unfoldable pub max_list_width : ℕ → ℕ
max_list_width viewport =
    max list_min_width_px
      (min (viewport / 2) (viewport - resize_handle_width_px - inspector_min_width_px))

unfoldable pub list_size : ℕ → ℕ → ℕ
unfolding max_list_width
list_size viewport list_width = max list_min_width_px (min list_width (max_list_width viewport))

-- with the width of the viewport, `none` where it is unknown
unfoldable pub get_initial_panel_sizes : Option ℕ → ℕ → PanelSizes
unfolding list_size
get_initial_panel_sizes none list_width = record { list = list_width; inspector = none }
get_initial_panel_sizes (some viewport) list_width =
    let available = viewport - resize_handle_width_px in
    record {
      list = list_size viewport list_width;
      inspector = some (max inspector_min_width_px (available - list_size viewport list_width));
    }

-- In a viewport of at least 57 pixels the handle and the two panels fill the width exactly, the
-- inspector is at least 30 pixels wide, and the list has the stored width, brought up to 26 pixels
-- and then down to the larger of 26 pixels and what the half of the viewport and the inspector's 30
-- pixels allow.
pub get_initial_panel_sizes_fill :
    (viewport list_width : ℕ)
    → 57 ≤ viewport
    → (list inspector : ℕ) × (get_initial_panel_sizes (some viewport) list_width
        ≡ record { list = list; inspector = some inspector })
      × (list + 1 + inspector ≡ viewport)
      × (30 ≤ inspector)
      × (list ≡ min (max 26 list_width) (max 26 (min (viewport / 2) (viewport - 31))))
unfolding get_initial_panel_sizes list_size max_list_width
get_initial_panel_sizes_fill viewport list_width wide =
    let list = list_size viewport list_width in
    (list, max 30 (viewport - 1 - list), refl, omega arith, omega arith, omega arith)
