-- ===== src/Store/Selectors.antt =====
-- The derived selectors of ui/src/state/store.ts.
use protospy.Prelude.{
  ℕ, Bool, true, false, Option, none, some, List, [], ◌∷◌, map, reverse, Text, text_eq, filter, any,
  length, if◌then◌else◌,
}
use protospy.Exchanges.Filter.{matches_filter}
use protospy.Store.Types.{Exchange}
use protospy.JsMap.{get}
use protospy.Store.State.{StoreState, Order, newest, oldest}

-- `ids.map((id) => exchanges.get(id)).filter((ex) => ex != null)`
unfoldable pub found_exchanges : List (ℕ × Exchange) → List ℕ → List Exchange
unfolding get
found_exchanges exchanges [] = []
found_exchanges exchanges (id ∷ ids) = elim (get id exchanges) [
  | none ↦ found_exchanges exchanges ids
  | some ex ↦ ex ∷ found_exchanges exchanges ids
]

-- `traceFilter == null || ex.traceId === traceFilter`
unfoldable pub matches_trace : Option Text → Option Text → Bool
unfolding text_eq
matches_trace none trace_id = true
matches_trace (some wanted) none = false
matches_trace (some wanted) (some trace_id) = text_eq trace_id wanted

abbrev pub in_order {ℓ} : {A : Type ℓ} → Order → List A → List A
in_order newest xs = reverse xs
in_order oldest xs = xs

unfoldable pub select_visible_exchanges : StoreState → List Exchange
unfolding found_exchanges matches_trace matches_filter
select_visible_exchanges s = in_order s.order (
    filter (λ ex. matches_trace s.trace_filter ex.trace_id)
      (filter (λ ex. matches_filter ex s.filter) (found_exchanges s.table.exchanges s.table.ids)))

unfoldable pub select_visible_ids : StoreState → List ℕ
unfolding select_visible_exchanges
select_visible_ids s = map (λ ex. ex.id) (select_visible_exchanges s)

unfoldable pub select_selected : StoreState → Option Exchange
unfolding get
select_selected s = elim s.selected_id [ none ↦ none | some id ↦ get id s.table.exchanges ]

-- `if (t) seen.add(t)`; an empty trace id counts as absent
unfoldable pub add_trace : Option Text → List Text → List Text
unfolding text_eq
add_trace none seen = seen
add_trace (some []) seen = seen
add_trace (some (c ∷ t)) seen = if any (text_eq (c ∷ t)) seen then seen else (c ∷ t) ∷ seen

-- the trace id of `exchanges.get(id)?.traceId`
unfoldable pub trace_id_of : List (ℕ × Exchange) → ℕ → Option Text
unfolding get
trace_id_of exchanges id = elim (get id exchanges) [ none ↦ none | some ex ↦ ex.trace_id ]

-- the loop of `selectTraceCount`
unfoldable pub seen_traces : List (ℕ × Exchange) → List ℕ → List Text → List Text
unfolding add_trace trace_id_of
seen_traces exchanges [] seen = seen
seen_traces exchanges (id ∷ ids) seen =
    seen_traces exchanges ids (add_trace (trace_id_of exchanges id) seen)

unfoldable pub select_trace_count : StoreState → ℕ
unfolding seen_traces
select_trace_count s = length (seen_traces s.table.exchanges s.table.ids [])
