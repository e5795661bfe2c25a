-- ===== src/JsonTree/Model.antt =====
-- ui/src/components/json-tree/model.ts: the tree of a JSON value.
use protospy.Prelude.{
  ℕ, suc, ◌+◌, Bool, true, false, Option, none, some, List, [], ◌∷◌, ◌++◌, Text, if◌then◌else◌,
}
use protospy.Wire.{Value, Items, nil, cons, Entries, end, entry}

-- `JsonPrimitive`
pub data Primitive : Type 0 where
  null : Primitive
  bool : Bool → Primitive
  num : Text → Primitive
  str : Text → Primitive

-- the two node types that have children
pub data ContainerType : Type 0 where
  object array : ContainerType

pub data PathSegment : Type 0 where
  key : Text → PathSegment
  index : ℕ → PathSegment

-- the fields of `JsonTreeNode` that every node has
pub record NodeInfo : Type 0 where
  pub id : ℕ
  pub path : List PathSegment
  pub depth : ℕ
  pub key : Option Text
  pub child_count : ℕ
  pub truncated : Bool
  pub total_nodes : ℕ

-- `JsonTreeNode`: a leaf has a value, a container has children
mutual
  pub data Node : Type 0 where
    leaf : NodeInfo → Primitive → Node
    container : NodeInfo → ContainerType → Nodes → Node

  pub data Nodes : Type 0 where
    empty : Nodes
    more : Node → Nodes → Nodes

abbrev pub info : Node → NodeInfo
info (leaf i v) = i
info (container i c ns) = i

-- `children.length`
unfoldable pub count : Nodes → ℕ
count empty = 0
count (more n ns) = suc (count ns)

-- `children.reduce((s, c) => s + c.totalNodes, 1)`
unfoldable pub sum_total : Nodes → ℕ
sum_total empty = 1
sum_total (more n ns) = (info n).total_nodes + sum_total ns

-- what `buildNode` is given beside the value; the counter comes separately
pub record Place : Type 0 where
  pub key : Option Text
  pub path : List PathSegment
  pub depth : ℕ

abbrev pub base_info : Place → ℕ → NodeInfo
base_info p id = record {
  id = id;
  path = p.path;
  depth = p.depth;
  key = p.key;
  child_count = 0;
  truncated = false;
  total_nodes = 1;
}

abbrev pub container_info : Place → ℕ → Nodes → NodeInfo
container_info p id children = record (base_info p id) {
  child_count = count children;
  total_nodes = sum_total children;
}

abbrev pub item_place : Place → ℕ → Place
item_place p i = record {
  key = none;
  path = p.path ++ PathSegment.index i ∷ [];
  depth = p.depth + 1;
}

abbrev pub entry_place : Place → Text → Place
entry_place p k = record {
  key = some k;
  path = p.path ++ PathSegment.key k ∷ [];
  depth = p.depth + 1;
}

-- `buildNode`, with the counter taken and returned
unfoldable mutual
  unfolding count sum_total

  pub build_node : Value → Place → ℕ → Node × ℕ
  build_node Value.null p next = (leaf (base_info p next) null, suc next)
  build_node (Value.str s) p next = (leaf (base_info p next) (str s), suc next)
  build_node (Value.num n) p next = (leaf (base_info p next) (num n), suc next)
  build_node (Value.bool b) p next = (leaf (base_info p next) (bool b), suc next)
  build_node (Value.arr items) p next =
      let built = build_items items p 0 (suc next) in
      (container (container_info p next built.0) array built.0, built.1)
  build_node (Value.obj entries) p next =
      let built = build_entries entries p (suc next) in
      (container (container_info p next built.0) object built.0, built.1)

  pub build_items : Items → Place → ℕ → ℕ → Nodes × ℕ
  build_items nil p i next = (empty, next)
  build_items (cons v vs) p i next =
      let first = build_node v (item_place p i) next in
      let rest = build_items vs p (suc i) first.1 in (more first.0 rest.0, rest.1)

  pub build_entries : Entries → Place → ℕ → Nodes × ℕ
  build_entries end p next = (empty, next)
  build_entries (entry k v es) p next =
      let first = build_node v (entry_place p k) next in
      let rest = build_entries es p first.1 in (more first.0 rest.0, rest.1)

abbrev pub root_place : Place
root_place = record { key = none; path = []; depth = 0 }

unfoldable pub build_json_tree : Value → Node
unfolding build_node
build_json_tree value = (build_node value root_place 0).0

-- the roots of a forest, with one counter for all
unfoldable pub build_forest_from : List Value → ℕ → Nodes
unfolding build_node
build_forest_from [] next = empty
build_forest_from (v ∷ vs) next =
    let first = build_node v root_place next in more first.0 (build_forest_from vs first.1)

unfoldable pub build_json_forest : List Value → Nodes
unfolding build_forest_from
build_json_forest values = build_forest_from values 0

unfoldable mutual
  pub count_nodes : Node → ℕ
  count_nodes (leaf i v) = 1
  count_nodes (container i c ns) = suc (count_all ns)

  pub count_all : Nodes → ℕ
  count_all empty = 0
  count_all (more n ns) = count_nodes n + count_all ns

-- the node with `truncated` set
abbrev pub mark_here : NodeInfo → NodeInfo
mark_here i = record i { truncated = true }

unfoldable pub is_end : Nodes → Bool
is_end empty = true
is_end (more n ns) = false

-- `markTruncationPoint`: the tree with the deepest node of the rightmost path marked
unfoldable mutual
  unfolding is_end

  pub mark_truncation_point : Node → Node
  mark_truncation_point (leaf i v) = leaf (mark_here i) v
  mark_truncation_point (container i c ns) =
      if is_end ns then container (mark_here i) c ns else container i c (mark_last ns)

  -- the children with the last of them marked
  pub mark_last : Nodes → Nodes
  mark_last empty = empty
  mark_last (more n ns) =
      if is_end ns then more (mark_truncation_point n) ns else more n (mark_last ns)

-- `markTruncationPoint(…).ancestorIds`
unfoldable mutual
  unfolding is_end

  pub ancestor_ids : Node → List ℕ
  ancestor_ids (leaf i v) = []
  ancestor_ids (container i c ns) = if is_end ns then [] else i.id ∷ ancestors_last ns

  pub ancestors_last : Nodes → List ℕ
  ancestors_last empty = []
  ancestors_last (more n ns) = if is_end ns then ancestor_ids n else ancestors_last ns
