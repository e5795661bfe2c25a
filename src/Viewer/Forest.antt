-- ===== src/Viewer/Forest.antt =====
-- The forest that the viewer of ui/src/components/json-tree/json-tree-viewer.tsx builds of its input.
use protospy.Prelude.{ℕ, Bool, true, false, Option, none, some, List, [], ◌==◌, if◌then◌else◌}
use protospy.Wire.{Value}
use protospy.JsonTree.Model.{
  Node, leaf, container, Nodes, empty, more, info, build_json_tree, build_json_forest,
  mark_truncation_point, ancestor_ids,
}
use protospy.JsonTree.Expand.{
  default_options, add, add_all, compute_default_expanded, compute_forest_default_expanded,
}

-- the properties `value` and `documents`, of which one is given
pub data Input : Type 0 where
  single : Value → Input
  many : List Value → Input

-- `BuiltForest`
pub record BuiltForest : Type 0 where
  pub roots : Nodes
  pub expand_ancestors : List ℕ

-- the last root marked, and the ids on the way to the mark
unfoldable pub mark_last_root : Nodes → BuiltForest
unfolding mark_truncation_point ancestor_ids
mark_last_root empty = record { roots = empty; expand_ancestors = [] }
mark_last_root (more n empty) = record {
  roots = more (mark_truncation_point n) empty;
  expand_ancestors = ancestor_ids n;
}
mark_last_root (more n (more m ns)) =
    let later = mark_last_root (more m ns) in record later { roots = more n later.roots }

unfoldable pub roots_of : Input → Nodes
unfolding build_json_tree build_json_forest
roots_of (single value) = more (build_json_tree value) empty
roots_of (many documents) = build_json_forest documents

-- `buildForest`
unfoldable pub build_forest : Input → Bool → BuiltForest
unfolding mark_last_root roots_of
build_forest input true = mark_last_root (roots_of input)
build_forest input false = record { roots = roots_of input; expand_ancestors = [] }

-- the sets for a forest and for its first root
unfoldable pub expanded_by_default : Input → Nodes → List ℕ
unfolding compute_default_expanded compute_forest_default_expanded
expanded_by_default (many documents) roots =
    compute_forest_default_expanded roots default_options []
expanded_by_default (single value) empty = []
expanded_by_default (single value) (more n ns) = compute_default_expanded n default_options

-- `defaultExpandedFor`
unfoldable pub default_expanded_for : Input → BuiltForest → List ℕ
unfolding expanded_by_default add_all
default_expanded_for input built =
    add_all built.expand_ancestors (expanded_by_default input built.roots)

-- the first of two results
abbrev pub or_else : Option Node → Option Node → Option Node
or_else none later = later
or_else (some n) later = some n

-- `findNodeInSubtree`, and its loop over the children
unfoldable mutual
  pub find_node_in_subtree : Node → ℕ → Option Node
  find_node_in_subtree (leaf i v) target = if i.id == target then some (leaf i v) else none
  find_node_in_subtree (container i c ns) target =
      let found = find_node_in_children ns target in
      if i.id == target then some (container i c ns) else found

  pub find_node_in_children : Nodes → ℕ → Option Node
  find_node_in_children empty target = none
  find_node_in_children (more n ns) target =
      or_else (find_node_in_subtree n target) (find_node_in_children ns target)

-- `findNodeById`
unfoldable pub find_node_by_id : Nodes → ℕ → Option Node
unfolding find_node_in_subtree
find_node_by_id roots target = find_node_in_children roots target

-- `collectDescendantIds`
unfoldable mutual
  unfolding add

  pub collect_descendant_ids : Node → List ℕ → List ℕ
  collect_descendant_ids (leaf i v) out = out
  collect_descendant_ids (container i c ns) out = collect_child_ids ns out

  pub collect_child_ids : Nodes → List ℕ → List ℕ
  collect_child_ids empty out = out
  collect_child_ids (more n ns) out =
      collect_child_ids ns (collect_descendant_ids n (add (info n).id out))
