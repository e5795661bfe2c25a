-- ===== src/Traces/Items.antt =====
-- The items of the grouped list of ui/src/components/trace-group.tsx, one exchange at a time.
use protospy.Prelude.{
  ◌≡◌, refl, ap, ◌∙◌, Bool, not, ◌&&◌, true, false, Option, none, some, List, ◌∷◌, Text, text_eq,
  any, if◌then◌else◌,
}
use protospy.Store.Types.{Exchange}
use protospy.Traces.Members.{listed}
use protospy.Traces.Groups.{is_grouped, GroupItem, card, row, group_items}

-- A card of the trace has been shown.
abbrev pub is_seen : List Text → Text → Bool
is_seen seen t = any (λ u. text_eq u t) seen

module _ (by_trace : List (Text × List Exchange)) where
  -- What is left to be shown behind the cards that have been.
  abbrev pub is_left : List Text → Exchange → Bool
  is_left seen x = elim x.trace_id [
    | none ↦ true
    | some t ↦ not (is_grouped by_trace t && is_seen seen t)
  ]

  pub is_left_alone : (seen : List Text) (x : Exchange) → x.trace_id ≡ none → is_left seen x ≡ true
  is_left_alone seen x alone =
      ap
        (λ o. elim o as (λ p. Bool) [
          | none ↦ true
          | some t ↦ not (is_grouped by_trace t && is_seen seen t)
        ])
        alone

  pub is_left_of :
      (seen : List Text) (x : Exchange) (t : Text)
      → x.trace_id ≡ some t
      → is_left seen x ≡ not (is_grouped by_trace t && is_seen seen t)
  is_left_of seen x t in_trace =
      ap
        (λ o. elim o as (λ p. Bool) [
          | none ↦ true
          | some t ↦ not (is_grouped by_trace t && is_seen seen t)
        ])
        in_trace

  module _ (seen : List Text) (x : Exchange) (xs : List Exchange) where
    -- The items for `x` and what follows, by the trace of `x`.
    abbrev pub items_for : Option Text → List GroupItem
    items_for o =
        let rest = group_items by_trace seen xs in
        elim o [
          | none ↦ row x ∷ rest
          | some t ↦
              if is_grouped by_trace t
              then if is_seen seen t
                then rest
                else card t (listed t by_trace) ∷ group_items by_trace (t ∷ seen) xs
              else row x ∷ rest
        ]

    pub group_items_for :
        (o : Option Text) → x.trace_id ≡ o → group_items by_trace seen (x ∷ xs) ≡ items_for o
    unfolding group_items
    group_items_for o same = ap items_for same

    pub group_items_single :
        (t : Text)
        → x.trace_id ≡ some t
        → is_grouped by_trace t ≡ false
        → group_items by_trace seen (x ∷ xs) ≡ row x ∷ group_items by_trace seen xs
    group_items_single t in_trace single = group_items_for (some t) in_trace ∙ rw (single) refl

    pub group_items_seen :
        (t : Text)
        → x.trace_id ≡ some t
        → is_grouped by_trace t ≡ true
        → is_seen seen t ≡ true
        → group_items by_trace seen (x ∷ xs) ≡ group_items by_trace seen xs
    group_items_seen t in_trace grouped shown =
        group_items_for (some t) in_trace ∙ rw (grouped, shown) refl

    pub group_items_new :
        (t : Text)
        → x.trace_id ≡ some t
        → is_grouped by_trace t ≡ true
        → is_seen seen t ≡ false
        → group_items by_trace seen (x ∷ xs)
          ≡ card t (listed t by_trace) ∷ group_items by_trace (t ∷ seen) xs
    group_items_new t in_trace grouped new =
        group_items_for (some t) in_trace ∙ rw (grouped, new) refl
