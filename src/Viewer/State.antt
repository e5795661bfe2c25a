-- ===== src/Viewer/State.antt =====
-- The state of `JsonTreeViewer` in ui/src/components/json-tree/json-tree-viewer.tsx and what changes
-- it. The forest is kept in a ref.
use protospy.Prelude.{
  ℕ, ◌+◌, Bool, true, false, Option, none, some, List, [], ◌∷◌, Text, min, if◌then◌else◌,
}
use protospy.JsMap.{get, set, delete}
use protospy.JsonTree.Model.{Nodes}
use protospy.JsonTree.Values.{node_to_value}
use protospy.JsonTree.Rows.{FlatRow, container_window, has, flatten_forest}
use protospy.JsonTree.Expand.{add, remove}
use protospy.JsonParse.Pretty.{pretty_text}
use protospy.Viewer.Forest.{
  Input, build_forest, default_expanded_for, find_node_by_id, collect_descendant_ids,
}

-- `JsonTreeViewerProps`, without the names for styles and access
pub record ViewerProps : Type 0 where
  pub input : Input
  pub initial_rows : Option (List FlatRow)
  pub initial_expanded : Option (List ℕ)
  pub truncated : Bool

pub record ViewerState : Type 0 where
  pub forest : Option Nodes
  pub tree_ready : Bool
  pub expanded : List ℕ
  pub limits : List (ℕ × ℕ)

-- the state of a forest that is built at once
unfoldable pub built_state : ViewerProps → ViewerState
unfolding build_forest default_expanded_for
built_state p =
    let built = build_forest p.input p.truncated in
    record {
      forest = some built.roots;
      tree_ready = true;
      expanded = default_expanded_for p.input built;
      limits = [];
    }

-- `if (initialExpanded) return initialExpanded`
unfoldable pub given_or : Option (List ℕ) → List ℕ → List ℕ
given_or none expanded = expanded
given_or (some given) expanded = given

-- the states that the component starts with
unfoldable pub mount : ViewerProps → ViewerState
unfolding built_state given_or
mount p = elim p.initial_rows [
  | none ↦
      let built = built_state p in
      record built { expanded = given_or p.initial_expanded built.expanded }
  | some rows ↦ record {
    forest = none;
    tree_ready = false;
    expanded = given_or p.initial_expanded [];
    limits = [];
  }
]

-- the state after a change of the input; the properties are the new ones
unfoldable pub change_input : ViewerProps → ViewerState
unfolding built_state
change_input p = elim p.initial_rows [
  | none ↦ built_state p
  | some rows ↦ elim p.initial_expanded [
    | none ↦ built_state p
    | some given ↦ record { forest = none; tree_ready = false; expanded = given; limits = [] }
  ]
]

-- `ensureForest`
unfoldable pub ensure_forest : ViewerProps → ViewerState → Nodes
unfolding build_forest
ensure_forest p s = elim s.forest [
  | none ↦ (build_forest p.input p.truncated).roots
  | some roots ↦ roots
]

-- the call of `ensureForest` with `setTreeReady(true)`
unfoldable pub with_forest : ViewerProps → ViewerState → ViewerState
unfolding ensure_forest
with_forest p s = record s { forest = some (ensure_forest p s); tree_ready = true }

-- `toRemove`'s loop
unfoldable pub delete_all : List ℕ → List (ℕ × ℕ) → List (ℕ × ℕ)
unfolding delete
delete_all [] limits = limits
delete_all (id ∷ ids) limits = delete_all ids (delete id limits)

-- the limits after a node is collapsed; where no key is deleted the source keeps the old map
unfoldable pub forget_limits : Nodes → ℕ → List (ℕ × ℕ) → List (ℕ × ℕ)
unfolding find_node_by_id collect_descendant_ids delete_all
forget_limits roots id limits = elim (find_node_by_id roots id) [
  | none ↦ limits
  | some n ↦ delete_all (collect_descendant_ids n (id ∷ [])) limits
]

unfoldable pub toggle : ViewerProps → ℕ → ViewerState → ViewerState
unfolding with_forest has remove add forget_limits ensure_forest
toggle p id s =
    if has s.expanded id
    then record (with_forest p s) {
      expanded = remove id s.expanded;
      limits = forget_limits (ensure_forest p s) id s.limits;
    }
    else record (with_forest p s) { expanded = add id s.expanded }

-- `next.get(nodeId) ?? CONTAINER_WINDOW`
unfoldable pub current_limit : List (ℕ × ℕ) → ℕ → ℕ
unfolding get
current_limit limits id = elim (get id limits) [ none ↦ container_window | some n ↦ n ]

unfoldable pub show_more : ViewerProps → (id total : ℕ) → ViewerState → ViewerState
unfolding with_forest set current_limit
show_more p id total s = record (with_forest p s) {
  limits = set id (min (current_limit s.limits id + container_window) total) s.limits;
}

unfoldable pub show_all : ViewerProps → (id total : ℕ) → ViewerState → ViewerState
unfolding with_forest set
show_all p id total s = record (with_forest p s) { limits = set id total s.limits }

-- the rows of a forest, if there is one
unfoldable pub forest_rows : Option Nodes → List ℕ → List (ℕ × ℕ) → List FlatRow
unfolding flatten_forest
forest_rows none expanded limits = []
forest_rows (some roots) expanded limits = flatten_forest roots expanded limits

unfoldable pub initial_or : Option (List FlatRow) → List FlatRow → List FlatRow
initial_or none rows = rows
initial_or (some initial) rows = initial

-- `rows`
unfoldable pub viewer_rows : ViewerProps → ViewerState → List FlatRow
unfolding forest_rows initial_or
viewer_rows p s =
    let rows = forest_rows s.forest s.expanded s.limits in
    if s.tree_ready then rows else initial_or p.initial_rows rows

-- `copyValue`: the text for the clipboard, `none` where there is no such node
unfoldable pub copy_value : ViewerProps → ℕ → ViewerState → Option Text
unfolding find_node_by_id ensure_forest node_to_value pretty_text
copy_value p id s = elim (find_node_by_id (ensure_forest p s) id) [
  | none ↦ none
  | some n ↦ some (pretty_text (node_to_value n))
]
