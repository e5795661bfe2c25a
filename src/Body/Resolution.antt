-- ===== src/Body/Resolution.antt =====
-- What `resolveMode` of ui/src/body/view-modes.ts promises to the body pane.
use protospy.Prelude.{
  ◌≤◌, ◌≡◌, refl, ◌⊎◌, Bool, true, false, Option, none, some, arith, inl, inr, any, Bool-cases, All,
}
use protospy.Body.ViewModes.{
  ViewMode, ContentKind, json, ndjson, html, xml, binary, mode_precedence, same_mode,
  selectable_modes, default_mode, resolve_mode,
}

-- A mode is offered for a body of this kind.
abbrev pub IsSelectable : ContentKind → Bool → ViewMode → Type 0
IsSelectable kind text_available m = any (same_mode m) (selectable_modes kind text_available) ≡ true

-- The default mode is offered, and no offered mode has a lower precedence number, but for the
-- `summary` of a binary body.
pub default_mode_best :
    (kind : ContentKind) (text_available : Bool)
    → IsSelectable kind text_available (default_mode kind text_available)
      × ((kind ≡ binary)
          ⊎ All
              (λ m. mode_precedence (default_mode kind text_available) ≤ mode_precedence m)
              (selectable_modes kind text_available))
unfolding default_mode mode_precedence same_mode
default_mode_best json true = ground arith
default_mode_best json false = ground arith
default_mode_best ndjson true = ground arith
default_mode_best ndjson false = ground arith
default_mode_best html true = ground arith
default_mode_best html false = ground arith
default_mode_best xml true = ground arith
default_mode_best xml false = ground arith
default_mode_best _ true = ground arith
default_mode_best _ false = ground arith

-- No stored mode, or one that is not offered for this body.
abbrev pub IsStale : ContentKind → Bool → Option ViewMode → Type 0
IsStale kind text_available none = Unit
IsStale kind text_available (some m) = ¬ IsSelectable kind text_available m

-- The mode that is shown is always one that is offered: it is the stored one, or the stored one is
-- missing or not offered and it is the default.
pub resolve_mode_lem :
    (stored : Option ViewMode) (kind : ContentKind) (text_available : Bool)
    → IsSelectable kind text_available (resolve_mode stored kind text_available)
      × ((stored ≡ some (resolve_mode stored kind text_available))
          ⊎ (IsStale kind text_available stored
              × (resolve_mode stored kind text_available ≡ default_mode kind text_available)))
unfolding resolve_mode
resolve_mode_lem none kind ta = ((default_mode_best kind ta).0, inr (tt, refl))
resolve_mode_lem (some s) kind ta =
    elim (Bool-cases (any (same_mode s) (selectable_modes kind ta))) [
      | inl offered ↦ rw offered (offered, inl refl)
      | inr missing ↦ rw missing ((default_mode_best kind ta).0, inr (λ h. cc, refl))
    ]

-- Resolving a resolved mode again changes nothing.
pub resolve_mode_idempotent :
    (stored : Option ViewMode) (kind : ContentKind) (text_available : Bool)
    → resolve_mode (some (resolve_mode stored kind text_available)) kind text_available
      ≡ resolve_mode stored kind text_available
unfolding resolve_mode
resolve_mode_idempotent stored kind ta = rw (resolve_mode_lem stored kind ta).0 refl
