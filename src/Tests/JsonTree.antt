-- ===== src/Tests/JsonTree.antt =====
-- The JSON tree at concrete inputs.
use protospy.Prelude.{
  ℕ, suc, zero, ◌≡◌, refl, true, false, some, [], ◌∷◌, codes, text_eq, ◌<◌, arith, ◌↔◌, inl, List,
  ◌++◌,
}
use protospy.Wire.{Value, Items, nil, cons, end, entry}
use protospy.JsonTree.Model.{
  base_info, Node, leaf, Primitive, container, Nodes, array, info, build_json_tree, build_items,
  root_place, container_info, NodeInfo, build_node, mark_truncation_point, ancestor_ids, count,
  count_nodes,
}
use protospy.JsonTree.Values.{goes_before, node_to_value}
use protospy.JsonTree.Rows.{has, container_window, flatten_tree}
use protospy.JsonTree.Expand.{
  default_options, compute_forest_default_expanded, compute_default_expanded,
}
use protospy.JsonTree.Opened.{Somewhere, IsOpen, has-compute_default_expanded}
use protospy.JsonTree.Budget.{roots_of, sizes_of, compute_forest_default_expanded_later}
use protospy.JsonTree.Numbering.{ids, range, build_json_tree_numbered}
use protospy.JsonTree.CopyValue.{IsWellKeyed, node_to_value-build_json_tree, node_to_value_proto}
use protospy.JsonTree.Brackets.{read_rows, read_rows-flatten_tree}
use protospy.JsonTree.Truncation.{truncated_count}
use protospy.JsonTree.Marker.{
  fits_window, AreExpanded, shows_marker, flatten_tree-mark_truncation_point,
}
use protospy.JsonTree.Hidden.{flatten_tree_hides}

-- `{"7": [1, true], "a": {"b": null}}`
abbrev sample : Value
sample = Value.obj (
    entry (codes "7") (Value.arr (cons (Value.num (codes "1")) (cons (Value.bool true) nil)))
      (entry (codes "a") (Value.obj (entry (codes "b") Value.null end)) end))

sample-IsWellKeyed : IsWellKeyed sample
unfolding text_eq goes_before
sample-IsWellKeyed = (refl, tt, (tt, (tt, tt)), (refl, ((refl, refl), tt), (refl, tt, tt, tt), tt))

sample_fits : fits_window (build_json_tree sample) ≡ true
unfolding fits_window build_json_tree
sample_fits = refl

sample_open : AreExpanded (ancestor_ids (build_json_tree sample)) (4 ∷ 0 ∷ [])
unfolding ancestor_ids build_json_tree has
sample_open = (refl, (refl, tt))

rest-IsWellKeyed : IsWellKeyed (Value.obj (entry (codes "b") Value.null end))
unfolding text_eq
rest-IsWellKeyed = (refl, tt, tt, tt)

abbrev repeat : ℕ → Value → Items
repeat zero v = nil
repeat (suc n) v = cons v (repeat n v)

abbrev many : Nodes
many = (build_items (repeat 101 Value.null) root_place 0 1).0

abbrev many_info : NodeInfo
many_info = container_info root_place 0 many

many_unmarked : truncated_count (container many_info array many) ≡ 0
unfolding truncated_count build_node
many_unmarked = refl

many_large : container_window < count many
unfolding count build_node
many_large = omega arith

build_json_tree_numbered_example :
    (ids (build_json_tree sample) ≡ range 0 (count_nodes (build_json_tree sample)))
    × ((info (build_json_tree sample)).total_nodes ≡ count_nodes (build_json_tree sample))
build_json_tree_numbered_example = build_json_tree_numbered sample

node_to_value-build_json_tree_example : node_to_value (build_json_tree sample) ≡ sample
node_to_value-build_json_tree_example = node_to_value-build_json_tree sample sample-IsWellKeyed

node_to_value_proto_example :
    node_to_value (
      build_json_tree
        (Value.obj (entry (codes "__proto__") Value.null (entry (codes "b") Value.null end))))
    ≡ Value.obj (entry (codes "b") Value.null end)
node_to_value_proto_example =
    node_to_value_proto Value.null (entry (codes "b") Value.null end) rest-IsWellKeyed

read_rows-flatten_tree_example :
    read_rows (flatten_tree (build_json_tree sample) (0 ∷ 4 ∷ []) []) [] ≡ some []
read_rows-flatten_tree_example = read_rows-flatten_tree (build_json_tree sample) (0 ∷ 4 ∷ []) [] []

flatten_tree-mark_truncation_point_example :
    shows_marker (flatten_tree (mark_truncation_point (build_json_tree sample)) (4 ∷ 0 ∷ []) [])
    ≡ true
flatten_tree-mark_truncation_point_example =
    flatten_tree-mark_truncation_point (build_json_tree sample) (4 ∷ 0 ∷ []) [] sample_fits
      sample_open

flatten_tree_hides_example :
    shows_marker (flatten_tree (mark_truncation_point (container many_info array many)) (0 ∷ []) [])
    ≡ false
flatten_tree_hides_example =
    flatten_tree_hides many_info array many (0 ∷ []) many_unmarked many_large

has-compute_default_expanded_example :
    (has (compute_default_expanded (build_json_tree sample) default_options) 4 ≡ true)
    ↔ Somewhere (IsOpen (build_json_tree sample) default_options 4) (build_json_tree sample)
has-compute_default_expanded_example =
    has-compute_default_expanded (build_json_tree sample) default_options 4

sample_root-IsOpen :
    Somewhere (IsOpen (build_json_tree sample) default_options 0) (build_json_tree sample)
unfolding build_json_tree
sample_root-IsOpen = inl (refl, omega arith, inl (omega arith))

-- a document that is the number 7
abbrev number_seven : Node
number_seven = leaf (base_info root_place 7) (Primitive.num (codes "7"))

-- two documents before the sample, the first over the budget, and one behind it
abbrev before_sample : List (Node × ℕ)
before_sample = (number_seven, 40_000) ∷ (number_seven, 100) ∷ []

abbrev behind_sample : List (Node × ℕ)
behind_sample = (number_seven, 32_700) ∷ []

compute_forest_default_expanded_later_example :
    has
      (compute_forest_default_expanded
        (roots_of (before_sample ++ (build_json_tree sample, 200) ∷ behind_sample))
        default_options
        (sizes_of (before_sample ++ (build_json_tree sample, 200) ∷ behind_sample)))
      0
    ≡ true
compute_forest_default_expanded_later_example =
    compute_forest_default_expanded_later default_options before_sample behind_sample
      (build_json_tree sample) 200 0 (omega arith) (omega arith, tt) sample_root-IsOpen
