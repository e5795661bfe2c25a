-- ===== src/Shell/Keys.antt =====
-- The keyboard map of ui/src/components/app-shell.tsx.
use protospy.Prelude.{
  Bool, true, false, not, ◌||◌, ◌&&◌, Option, none, some, [], ◌∷◌, Text, codes, text_eq, to_lower,
  if◌then◌else◌,
}
use protospy.Runtime.{Runtime}
use protospy.Store.State.{
  StoreState, set_cmd_k_open, set_help_open, set_trace_filter, set_filter, dispatch,
}
use protospy.Shell.Moves.{forward, backward, move}

-- what `onKey` reads of the event: the key, whether Meta or Ctrl is down, whether the target takes
-- text
pub record KeyPress : Type 0 where
  pub key : Text
  pub command : Bool
  pub typing : Bool

-- `⌘K` or `Ctrl-K`
unfoldable pub is_palette_key : KeyPress → Bool
unfolding to_lower text_eq
is_palette_key e = e.command && text_eq (to_lower e.key) (codes "k")

-- a string that is there and not empty
abbrev pub is_truthy : Option Text → Bool
is_truthy none = false
is_truthy (some []) = false
is_truthy (some (c ∷ t)) = true

module _ (rt : Runtime) where
  unfoldable pub toggle_palette : StoreState → StoreState
  toggle_palette s = if s.help_open then s else dispatch rt (set_cmd_k_open (not s.cmd_k_open)) s

  -- the case "Escape"
  unfoldable pub clear_filters : StoreState → StoreState
  clear_filters s =
      if is_truthy s.trace_filter || is_truthy (some s.filter)
      then dispatch rt (set_filter []) (dispatch rt (set_trace_filter none) s)
      else s

  -- the `switch`; the key "/" moves the focus and changes nothing in the store
  unfoldable pub on_plain_key : Text → StoreState → StoreState
  unfolding text_eq clear_filters move
  on_plain_key key s =
      if text_eq key (codes "j") || text_eq key (codes "ArrowDown")
      then move rt forward s
      else if text_eq key (codes "k") || text_eq key (codes "ArrowUp")
      then move rt backward s
      else if text_eq key (codes "?")
      then dispatch rt (set_help_open true) s
      else if text_eq key (codes "Escape")
      then clear_filters s
      else s

  -- `onKey`
  unfoldable pub on_key : KeyPress → StoreState → StoreState
  unfolding is_palette_key toggle_palette on_plain_key
  on_key e s =
      if is_palette_key e
      then toggle_palette s
      else if s.cmd_k_open || s.help_open || e.typing
      then s
      else on_plain_key e.key s
