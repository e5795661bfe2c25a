-- ===== src/Store/Visible.antt =====
-- The list of visible exchanges (`selectVisibleIds` of ui/src/state/store.ts) against a direct
-- description: a filter over the array of ids.
use mathlib.Core.List.{reverse-cons, map-append}
use protospy.Prelude.{
  ℕ, ◌≡◌, refl, ap, ◌∙◌, Bool, false, ◌&&◌, none, some, List, [], ◌∷◌, map, reverse, filter, arith,
  inl, inr, Option-cases, Option, Text, text_eq, to_lower, includes, starts_with, any, ◌++◌, ◌||◌,
  true, sym,
}
use protospy.Exchanges.Filter.{text_or_empty, contains_query, matches_filter}
use protospy.Store.Types.{Exchange}
use protospy.JsMap.{get}
use protospy.Store.Labels.{IsLabelled, id_of_get}
use protospy.Store.State.{StoreState, Order, newest, oldest}
use protospy.Store.Selectors.{found_exchanges, matches_trace, in_order, select_visible_ids}

-- The text, if there is one.
abbrev pub present : Option Text → List Text
present none = []
present (some t) = t ∷ []

-- The texts of an exchange in which the text filter is looked for.
abbrev pub searched : Exchange → List Text
searched ex = present ex.method ++ (present ex.uri ++ present ex.status)

-- Without a query every exchange passes; with one, those of whose texts one contains it, whatever
-- the case.
unfoldable pub passes_text : Text → Exchange → Bool
unfolding to_lower includes
passes_text [] ex = true
passes_text (c ∷ query) ex = any (λ t. includes (to_lower t) (to_lower (c ∷ query))) (searched ex)

-- Without a wanted trace every exchange passes; with one, those with a trace id that is equal to it.
unfoldable pub passes_trace : Option Text → Exchange → Bool
unfolding text_eq
passes_trace none ex = true
passes_trace (some wanted) ex = any (λ t. text_eq t wanted) (present ex.trace_id)

-- The id has an exchange that passes both filters.
unfoldable pub is_visible : StoreState → ℕ → Bool
unfolding passes_text passes_trace
is_visible s id = elim (get id s.table.exchanges) [
  | none ↦ false
  | some ex ↦ passes_text s.filter ex && passes_trace s.trace_filter ex
]

-- The ids in the order that they are shown in: the one that came last is first, or last.
abbrev pub arranged : Order → List ℕ → List ℕ
arranged newest ids = reverse ids
arranged oldest ids = ids

or_false : (a : Bool) → (a || false) ≡ a
or_false a = ground arith

or_assoc : (a b c : Bool) → (a || (b || c)) ≡ ((a || b) || c)
or_assoc a b c = ground arith

any-append {ℓ} :
    {A : Type ℓ} (f : A → Bool) (xs ys : List A) → any f (xs ++ ys) ≡ (any f xs || any f ys)
any-append f [] ys = refl
any-append f (x ∷ xs) ys = ground (arith, any-append f xs ys)

any-present :
    (c : ℕ) (query : Text) (field : Option Text)
    → any (λ t. includes (to_lower t) (to_lower (c ∷ query))) (present field)
      ≡ includes (to_lower (text_or_empty field)) (to_lower (c ∷ query))
unfolding to_lower includes starts_with
any-present c query none = refl
any-present c query (some t) = or_false (includes (to_lower t) (to_lower (c ∷ query)))

any-searched :
    (c : ℕ) (query : Text) (ex : Exchange)
    → any (λ t. includes (to_lower t) (to_lower (c ∷ query))) (searched ex)
      ≡ contains_query ex (to_lower (c ∷ query))
unfolding contains_query
any-searched c query ex =
    let contains = λ (t : Text). includes (to_lower t) (to_lower (c ∷ query)) in
    rw
      (
        any-append contains (present ex.method) (present ex.uri ++ present ex.status),
        any-append contains (present ex.uri) (present ex.status),
        any-present c query ex.method,
        any-present c query ex.uri,
        any-present c query ex.status,
      )
      (or_assoc (includes (to_lower (text_or_empty ex.method)) (to_lower (c ∷ query))) _ _)

matches_filter_lem : (ex : Exchange) (query : Text) → matches_filter ex query ≡ passes_text query ex
unfolding matches_filter passes_text
matches_filter_lem ex [] = refl
matches_filter_lem ex (c ∷ query) = sym (any-searched c query ex)

matches_trace_lem :
    (wanted : Option Text) (ex : Exchange)
    → matches_trace wanted ex.trace_id ≡ passes_trace wanted ex
unfolding matches_trace passes_trace
matches_trace_lem none ex = refl
matches_trace_lem (some wanted) ex = cases ex.trace_id
  where
    cases :
        (trace_id : Option Text)
        → matches_trace (some wanted) trace_id ≡ any (λ t. text_eq t wanted) (present trace_id)
    cases none = refl
    cases (some t) = sym (or_false (text_eq t wanted))

map-reverse {ℓ κ} :
    {A : Type ℓ} {B : Type κ} (f : A → B) (xs : List A) → map f (reverse xs) ≡ reverse (map f xs)
map-reverse f [] = refl
map-reverse f (x ∷ xs) = simp (reverse-cons, map-append, map-reverse f xs)

map-in_order :
    (o : Order) (xs : List Exchange)
    → map (λ ex. ex.id) (in_order o xs) ≡ arranged o (map (λ ex. ex.id) xs)
map-in_order newest xs = map-reverse (λ (ex : Exchange). ex.id) xs
map-in_order oldest xs = refl

visible_from :
    (s : StoreState) (ids : List ℕ)
    → IsLabelled s.table
    → map
        (λ ex. ex.id)
        (filter
          (λ ex. matches_trace s.trace_filter ex.trace_id)
          (filter (λ ex. matches_filter ex s.filter) (found_exchanges s.table.exchanges ids)))
      ≡ filter (is_visible s) ids
unfolding found_exchanges is_visible
visible_from s [] a = refl
visible_from s (id ∷ ids) a = elim (Option-cases (get id s.table.exchanges)) [
  | inl gone ↦ ground (arith, visible_from s ids a)
  | inr (ex, found) ↦
      let same = id_of_get id ex s.table.exchanges a found in
      ground (
        arith,
        visible_from s ids a,
        matches_filter_lem ex s.filter,
        matches_trace_lem s.trace_filter ex,
      )
]

-- Where every exchange carries the id that it is stored under, the visible ids are those ids of the
-- array whose exchange passes the text filter and the trace filter, each as often as it stands
-- there; with the newest first in the reverse of the array's order, with the oldest first in its
-- order.
pub select_visible_ids_lem :
    (s : StoreState)
    → IsLabelled s.table
    → select_visible_ids s ≡ arranged s.order (filter (is_visible s) s.table.ids)
unfolding select_visible_ids
select_visible_ids_lem s a =
    map-in_order s.order _ ∙ ap (arranged s.order) (visible_from s s.table.ids a)
