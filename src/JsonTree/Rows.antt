-- ===== src/JsonTree/Rows.antt =====
-- ui/src/components/json-tree/flatten.ts: the visible rows of a tree.
-- The rows that the source pushes to an array are returned as a list.
pub mod Quote
use protospy.Prelude.{
  ℕ, zero, suc, ◌+◌, ◌/◌, ◌%◌, Bool, true, false, not, ◌&&◌, ◌||◌, Option, none, some, List, [],
  ◌∷◌, ◌++◌, Text, codes, leb, ltb, ◌==◌, if◌then◌else◌, any, min,
}
use protospy.JsMap.{get}
use protospy.JsonTree.Model.{
  Primitive, null, bool, num, str, ContainerType, object, array, PathSegment, key, index, NodeInfo,
  Node, leaf, container, Nodes, empty, more, info, count, is_end,
}
use protospy.JsonTree.Rows.Quote.{quote}

abbrev pub large_container_child_count : ℕ
large_container_child_count = 100

abbrev pub container_window : ℕ
container_window = large_container_child_count

pub data FlatRowKind : Type 0 where
  opening closing collapsed leaf_row show_more : FlatRowKind

pub record FlatRow : Type 0 where
  pub kind : FlatRowKind
  pub node_id : ℕ
  pub depth : ℕ
  pub path : List PathSegment
  pub key : Option Text
  pub container_type : Option ContainerType
  pub child_count : Option ℕ
  pub shown_count : Option ℕ
  pub value_text : Option Text
  pub value_cls : Option Text
  pub has_comma : Bool
  pub truncated : Bool
  pub doc_index : Option ℕ

unfoldable pub format_primitive : Primitive → Text × Text
unfolding quote
format_primitive null = (codes "null", codes "text-json-null")
format_primitive (bool true) = (codes "true", codes "text-json-boolean")
format_primitive (bool false) = (codes "false", codes "text-json-boolean")
format_primitive (num n) = (n, codes "text-json-number")
format_primitive (str s) = (quote s, codes "text-json-string")

-- the fields that every row of a node has
abbrev pub row_of : FlatRowKind → NodeInfo → Bool → FlatRow
row_of kind i has_comma = record {
  kind = kind;
  node_id = i.id;
  depth = i.depth;
  path = i.path;
  key = i.key;
  container_type = none;
  child_count = none;
  shown_count = none;
  value_text = none;
  value_cls = none;
  has_comma = has_comma;
  truncated = i.truncated;
  doc_index = none;
}

abbrev pub leaf_of : NodeInfo → Bool → Text × Text → FlatRow
leaf_of i has_comma t = record (row_of leaf_row i has_comma) {
  value_text = some t.0;
  value_cls = some t.1;
}

unfoldable pub empty_text : ContainerType → Text × Text
empty_text object = (codes "{}", codes "text-json-punct")
empty_text array = (codes "[]", codes "text-json-punct")

abbrev pub collapsed_of : NodeInfo → ContainerType → Bool → FlatRow
collapsed_of i c has_comma = record (row_of collapsed i has_comma) {
  container_type = some c;
  child_count = some i.child_count;
}

abbrev pub open_of : NodeInfo → ContainerType → FlatRow
open_of i c = record (row_of opening i false) {
  container_type = some c;
  child_count = some i.child_count;
}

abbrev pub show_more_of : NodeInfo → ContainerType → (total shown : ℕ) → FlatRow
show_more_of i c total shown = record (row_of show_more i false) {
  depth = i.depth + 1;
  key = none;
  container_type = some c;
  child_count = some total;
  shown_count = some shown;
  truncated = false;
}

abbrev pub close_of : NodeInfo → ContainerType → Bool → FlatRow
close_of i c has_comma = record (row_of closing i has_comma) { key = none; container_type = some c }

-- `limits.get(node.id) ?? CONTAINER_WINDOW`
unfoldable pub limit_of : List (ℕ × ℕ) → ℕ → ℕ
unfolding get
limit_of limits id = elim (get id limits) [ none ↦ container_window | some n ↦ n ]

-- how many children are revealed
unfoldable pub shown_children : List (ℕ × ℕ) → NodeInfo → ℕ → ℕ
unfolding limit_of
shown_children limits i total =
    if ltb container_window total then min (limit_of limits i.id) total else total

unfoldable pub more_rows : NodeInfo → ContainerType → (total shown : ℕ) → List FlatRow
more_rows i c total shown = if ltb shown total then show_more_of i c total shown ∷ [] else []

-- a `ReadonlySet<number>`, by its elements
unfoldable pub has : List ℕ → ℕ → Bool
has set id = any (λ x. x == id) set

-- the rows of a container, from those of its revealed children
unfoldable pub container_rows :
    NodeInfo → ContainerType → (last is_empty is_expanded : Bool) → List FlatRow → List FlatRow
unfolding empty_text
container_rows i c last true is_expanded inner = leaf_of i (not last) (empty_text c) ∷ []
container_rows i c last false false inner = collapsed_of i c (not last) ∷ []
container_rows i c last false true inner = open_of i c ∷ (inner ++ close_of i c (not last) ∷ [])

-- `flattenNode`; its second argument is `isLast`
unfoldable mutual
  unfolding format_primitive container_rows shown_children more_rows has is_end count

  pub flatten_node : Node → Bool → List ℕ → List (ℕ × ℕ) → List FlatRow
  flatten_node (leaf i v) last expanded limits = leaf_of i (not last) (format_primitive v) ∷ []
  flatten_node (container i c ns) last expanded limits =
      container_rows i c last (is_end ns) (has expanded i.id) (
        flatten_children ns (shown_children limits i (count ns)) expanded limits
        ++ more_rows i c (count ns) (shown_children limits i (count ns)))

  -- the loop over the first `shown` children
  pub flatten_children : Nodes → ℕ → List ℕ → List (ℕ × ℕ) → List FlatRow
  flatten_children empty shown expanded limits = []
  flatten_children (more n ns) zero expanded limits = []
  flatten_children (more n ns) (suc shown) expanded limits =
      flatten_node n (is_end ns) expanded limits ++ flatten_children ns shown expanded limits

unfoldable pub flatten_tree : Node → List ℕ → List (ℕ × ℕ) → List FlatRow
unfolding flatten_node
flatten_tree root expanded limits = flatten_node root true expanded limits

-- the first row of a document carries its index
unfoldable pub label_first : ℕ → List FlatRow → List FlatRow
label_first doc_index [] = []
label_first doc_index (r ∷ rs) = record r { doc_index = some doc_index } ∷ rs

unfoldable pub flatten_documents : ℕ → Nodes → List ℕ → List (ℕ × ℕ) → List FlatRow
unfolding flatten_node label_first
flatten_documents doc_index empty expanded limits = []
flatten_documents doc_index (more n ns) expanded limits =
    label_first doc_index (flatten_node n true expanded limits)
    ++ flatten_documents (suc doc_index) ns expanded limits

unfoldable pub flatten_forest : Nodes → List ℕ → List (ℕ × ℕ) → List FlatRow
unfolding flatten_documents
flatten_forest roots expanded limits = flatten_documents 0 roots expanded limits
