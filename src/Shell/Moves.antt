-- ===== src/Shell/Moves.antt =====
-- The ways to move the selection in ui/src/components/app-shell.tsx. An index of -1 is `none`.
use mathlib.Core.Option
use protospy.Prelude.{
  ℕ, zero, suc, ◌+◌, ◌-◌, ◌%◌, min, Bool, false, ◌&&◌, Option, none, some, List, [], ◌∷◌, Text,
  text_eq, split_on, first_part, length, ◌==◌, if◌then◌else◌,
}
use protospy.Runtime.{Runtime}
use protospy.JsMap.{get}
use protospy.Store.Types.{Exchange}
use protospy.Store.State.{StoreState, set_selected_id, dispatch}
use protospy.Store.Selectors.{select_visible_ids}

-- `ids.indexOf(id)`
unfoldable pub index_of_id : ℕ → List ℕ → Option ℕ
index_of_id id [] = none
index_of_id id (x ∷ ids) = if x == id then some 0 else Option.map suc (index_of_id id ids)

-- `ids.indexOf(s.selectedId ?? -1)`; no id is negative
unfoldable pub selected_index : Option ℕ → List ℕ → Option ℕ
unfolding index_of_id
selected_index none ids = none
selected_index (some id) ids = index_of_id id ids

-- `ids[i]`, `none` for `undefined`
unfoldable pub get_elem? : List ℕ → ℕ → Option ℕ
get_elem? [] i = none
get_elem? (x ∷ ids) zero = some x
get_elem? (x ∷ ids) (suc i) = get_elem? ids i

-- the argument of `move`: 1 or -1
pub data Delta : Type 0 where
  forward backward : Delta

-- `i + delta` between the first index and the last
unfoldable pub clamped : Delta → ℕ → List ℕ → ℕ
clamped forward i ids = min (i + 1) (length ids - 1)
clamped backward i ids = min (i - 1) (length ids - 1)

-- the index `ni` of `move`; the number of ids is not 0
unfoldable pub next_index : Delta → Option ℕ → List ℕ → ℕ
unfolding clamped
next_index forward none ids = 0
next_index backward none ids = length ids - 1
next_index delta (some i) ids = clamped delta i ids

-- the index in `onPrev` and `onNext`, where an index of -1 gives the first
unfoldable pub step_index : Delta → Option ℕ → List ℕ → ℕ
unfolding clamped
step_index delta none ids = 0
step_index delta (some i) ids = clamped delta i ids

module _ (rt : Runtime) where
  abbrev pub select : ℕ → StoreState → StoreState
  select id s = dispatch rt (set_selected_id (some id)) s

  -- `if (next != null) setSelectedId(next)`
  unfoldable pub select_found : Option ℕ → StoreState → StoreState
  select_found none s = s
  select_found (some id) s = select id s

  -- `move`; without ids there is nothing at any index
  unfoldable pub move : Delta → StoreState → StoreState
  unfolding select_found get_elem? next_index selected_index
  move delta s =
      let ids = select_visible_ids s in
      select_found (get_elem? ids (next_index delta (selected_index s.selected_id ids) ids)) s

  -- `onPrev` and `onNext`
  unfoldable pub step : Delta → StoreState → StoreState
  unfolding select_found get_elem? step_index selected_index
  step delta s =
      let ids = select_visible_ids s in
      select_found (get_elem? ids (step_index delta (selected_index s.selected_id ids) ids)) s

-- `start + k`, where `start` may be -1 and `k` is from 1 on
unfoldable pub offset : Option ℕ → ℕ → ℕ
offset none k = k - 1
offset (some i) k = i + k

-- the test of the loops on `cand`
unfoldable pub candidate_at : (Exchange → Bool) → List (ℕ × Exchange) → Option ℕ → Option Exchange
candidate_at wanted exchanges none = none
candidate_at wanted exchanges (some id) = elim (get id exchanges) [
  | none ↦ none
  | some cand ↦ if wanted cand then some cand else none
]

-- the loop from `k` on, with as many rounds as are left
unfoldable pub search_from :
    (Exchange → Bool) → List (ℕ × Exchange) → List ℕ → Option ℕ → (left k : ℕ) → Option Exchange
unfolding candidate_at get_elem? offset
search_from wanted exchanges ids start zero k = none
search_from wanted exchanges ids start (suc left) k =
    let rest = search_from wanted exchanges ids start left (k + 1) in
    elim (candidate_at wanted exchanges (get_elem? ids (offset start k % length ids))) [
      | none ↦ rest
      | some cand ↦ some cand
    ]

-- `a === b` where either may be absent
unfoldable pub same_text : Option Text → Option Text → Bool
same_text none none = Bool.true
same_text none (some b) = false
same_text (some a) none = false
same_text (some a) (some b) = text_eq a b

-- `(uri ?? "").split("?")[0]`
unfoldable pub path_of : Option Text → Text
unfolding split_on first_part
path_of none = []
path_of (some uri) = first_part (split_on b'?' uri)

-- the same method and the same path
unfoldable pub is_matching : Exchange → Exchange → Bool
unfolding same_text path_of text_eq
is_matching cur cand =
    same_text cand.method cur.method && text_eq (path_of cand.uri) (path_of cur.uri)

-- `cand.traceId === traceId`
unfoldable pub is_in_trace : Text → Exchange → Bool
unfolding same_text
is_in_trace trace_id cand = same_text cand.trace_id (some trace_id)

module _ (rt : Runtime) where
  unfoldable pub select_exchange : Option Exchange → StoreState → StoreState
  select_exchange none s = s
  select_exchange (some cand) s = select rt cand.id s

  -- the loop of both handlers
  unfoldable pub select_next : (Exchange → Bool) → Exchange → StoreState → StoreState
  unfolding select_exchange search_from index_of_id
  select_next wanted cur s =
      let ids = select_visible_ids s in
      select_exchange
        (search_from wanted s.table.exchanges ids (index_of_id cur.id ids) (length ids) 1) s

  unfoldable pub on_next_matching : Exchange → StoreState → StoreState
  unfolding select_next is_matching
  on_next_matching cur s = select_next (is_matching cur) cur s

  unfoldable pub on_next_in_trace : Exchange → Text → StoreState → StoreState
  unfolding select_next is_in_trace
  on_next_in_trace cur trace_id s = select_next (is_in_trace trace_id) cur s
