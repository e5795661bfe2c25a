-- ===== src/Shell/Dialogs.antt =====
-- The keyboard map of ui/src/components/app-shell.tsx and the two dialogs, the palette and the help.
use protospy.Prelude.{
  ◌≡◌, refl, Bool, true, false, not, ◌&&◌, ◌||◌, Option, none, some, Text, text_eq, codes,
  if◌then◌else◌, ℕ,
}
use protospy.Runtime.{Runtime}
use protospy.Store.State.{StoreState, dispatch}
use protospy.Shell.Moves.{Delta, forward, backward, select_found, move}
use protospy.Shell.Keys.{
  KeyPress, is_palette_key, is_truthy, toggle_palette, clear_filters, on_plain_key, on_key,
}

-- At most one of the dialogs is open.
abbrev pub IsExclusive : StoreState → Type 0
IsExclusive s = (s.cmd_k_open && s.help_open) ≡ false

and_false : (a b : Bool) → b ≡ false → (a && b) ≡ false
and_false true b h = h
and_false false b h = refl

false_and : (a b : Bool) → a ≡ false → (a && b) ≡ false
false_and true b h = cc
false_and false b h = refl

or_false : (a b c : Bool) → (a || b || c) ≡ false → a ≡ false
or_false true b c h = cc
or_false false b c h = refl

if_both {ℓ κ} :
    {A : Type ℓ} (P : A → Type κ) (b : Bool) (x y : A)
    → (b ≡ true → P x)
    → (b ≡ false → P y)
    → P (if b then x else y)
if_both P true x y hx hy = hx refl
if_both P false x y hx hy = hy refl

module _ (rt : Runtime) (s : StoreState) where
  select_found-IsExclusive :
      (found : Option ℕ) → IsExclusive s → IsExclusive (select_found rt found s)
  unfolding select_found dispatch
  select_found-IsExclusive none exclusive = exclusive
  select_found-IsExclusive (some id) exclusive = exclusive

  move-IsExclusive : (delta : Delta) → IsExclusive s → IsExclusive (move rt delta s)
  unfolding move
  move-IsExclusive delta exclusive = select_found-IsExclusive _ exclusive

  toggle_palette-IsExclusive : IsExclusive s → IsExclusive (toggle_palette rt s)
  unfolding toggle_palette dispatch
  toggle_palette-IsExclusive exclusive =
      if_both IsExclusive s.help_open _ _ (λ help. exclusive)
        (λ no_help. and_false (not s.cmd_k_open) s.help_open no_help)

  clear_filters-IsExclusive : IsExclusive s → IsExclusive (clear_filters rt s)
  unfolding clear_filters dispatch
  clear_filters-IsExclusive exclusive =
      if_both IsExclusive (is_truthy s.trace_filter || is_truthy (some s.filter)) _ _
        (λ set. exclusive) (λ unset. exclusive)

  on_plain_key-IsExclusive :
      (key : Text) → s.cmd_k_open ≡ false → IsExclusive (on_plain_key rt key s)
  unfolding on_plain_key dispatch
  on_plain_key-IsExclusive key closed =
      let exclusive = false_and s.cmd_k_open s.help_open closed in
      if_both IsExclusive (text_eq key (codes "j") || text_eq key (codes "ArrowDown")) _ _
        (λ h. move-IsExclusive forward exclusive)
        (λ h.
          if_both IsExclusive (text_eq key (codes "k") || text_eq key (codes "ArrowUp")) _ _
            (λ h. move-IsExclusive backward exclusive)
            (λ h.
              if_both IsExclusive (text_eq key (codes "?")) _ _
                (λ h. false_and s.cmd_k_open true closed)
                (λ h.
                  if_both IsExclusive (text_eq key (codes "Escape")) _ _
                    (λ h. clear_filters-IsExclusive exclusive) (λ h. exclusive))))

  -- Where at most one dialog is open, a key never leads to both being open.
  pub on_key-IsExclusive : (e : KeyPress) → IsExclusive s → IsExclusive (on_key rt e s)
  unfolding on_key
  on_key-IsExclusive e exclusive =
      if_both IsExclusive (is_palette_key e) _ _ (λ h. toggle_palette-IsExclusive exclusive)
        (λ h.
          if_both IsExclusive (s.cmd_k_open || s.help_open || e.typing) _ _ (λ busy. exclusive)
            (λ free.
              on_plain_key-IsExclusive e.key (or_false s.cmd_k_open s.help_open e.typing free)))
