-- ===== src/Traces/Groups.antt =====
-- `GroupedExchangeList` and the sum of `TraceGroup` in ui/src/components/trace-group.tsx. The map
-- from trace ids to their exchanges is its entries.
use mathlib.Core.List.{foldl}
use protospy.Prelude.{
  ℕ, ◌+◌, Bool, Option, none, some, List, [], ◌∷◌, ◌++◌, Text, text_eq, any, length, ltb,
  if◌then◌else◌,
}
use protospy.Store.Types.{Exchange}

-- `byTrace.get(traceId)`
unfoldable pub get_members : Text → List (Text × List Exchange) → Option (List Exchange)
unfolding text_eq
get_members t [] = none
get_members t ((u, members) ∷ by_trace) =
    if text_eq u t then some members else get_members t by_trace

-- `arr.push(x)` for an id that is there, and the entry of a new one
unfoldable pub push_member :
    Text → Exchange → List (Text × List Exchange) → List (Text × List Exchange)
unfolding text_eq
push_member t x [] = (t, x ∷ []) ∷ []
push_member t x ((u, members) ∷ by_trace) =
    if text_eq u t
    then (u, members ++ x ∷ []) ∷ by_trace
    else (u, members) ∷ push_member t x by_trace

-- one round of the first loop
unfoldable pub collect_member : List (Text × List Exchange) → Exchange → List (Text × List Exchange)
unfolding push_member
collect_member by_trace x = elim x.trace_id [ none ↦ by_trace | some t ↦ push_member t x by_trace ]

unfoldable pub collect_members : List Exchange → List (Text × List Exchange)
unfolding collect_member
collect_members exchanges = foldl collect_member [] exchanges

-- `byTrace.get(x.traceId)?.length ?? 0`
unfoldable pub member_count : Option (List Exchange) → ℕ
member_count none = 0
member_count (some members) = length members

-- the test of `isGrouped` for a trace id
unfoldable pub is_grouped : List (Text × List Exchange) → Text → Bool
unfolding member_count get_members
is_grouped by_trace t = ltb 1 (member_count (get_members t by_trace))

-- what the list shows: the card of a trace with its members, or a row
pub data GroupItem : Type 0 where
  card : Text → List Exchange → GroupItem
  row : Exchange → GroupItem

-- `byTrace.get(x.traceId!)!`
unfoldable pub members_or_none : Option (List Exchange) → List Exchange
members_or_none none = []
members_or_none (some members) = members

-- the `map` over the exchanges, without the `null`s; `seen` are the ids with a card
unfoldable pub group_items :
    List (Text × List Exchange) → List Text → List Exchange → List GroupItem
unfolding is_grouped get_members members_or_none text_eq
group_items by_trace seen [] = []
group_items by_trace seen (x ∷ exchanges) =
    let rest = group_items by_trace seen exchanges in
    elim x.trace_id [
      | none ↦ row x ∷ rest
      | some t ↦
          if is_grouped by_trace t
          then if any (λ u. text_eq u t) seen
            then rest
            else card t (members_or_none (get_members t by_trace))
              ∷ group_items by_trace (t ∷ seen) exchanges
          else row x ∷ rest
    ]

-- `GroupedExchangeList`
unfoldable pub grouped_exchange_list : List Exchange → List GroupItem
unfolding group_items collect_members
grouped_exchange_list exchanges = group_items (collect_members exchanges) [] exchanges

abbrev pub elapsed_or_zero : Option ℕ → ℕ
elapsed_or_zero none = 0
elapsed_or_zero (some ms) = ms

-- the sum over the members of a card
unfoldable pub total_elapsed : List Exchange → ℕ
total_elapsed members = foldl (λ a m. a + elapsed_or_zero m.elapsed_ms) 0 members
