-- ===== src/JsonTree/Truncation.antt =====
-- How many nodes `markTruncationPoint` of ui/src/components/json-tree/model.ts marks.
use protospy.Prelude.{ℕ, suc, ◌+◌, ◌≡◌, refl, false, arith, Bool-cases, inl, inr, if◌then◌else◌}
use protospy.Wire.{Value, Items, nil, cons, Entries, end, entry}
use protospy.JsonTree.Model.{
  Node, leaf, container, Nodes, empty, more, is_end, Place, item_place, entry_place, root_place,
  build_node, build_items, build_entries, build_json_tree, mark_truncation_point, mark_last,
}

-- How many nodes are marked.
unfoldable mutual
  pub truncated_count : Node → ℕ
  truncated_count (leaf i v) = if i.truncated then 1 else 0
  truncated_count (container i c ns) = (if i.truncated then 1 else 0) + truncated_all ns

  pub truncated_all : Nodes → ℕ
  truncated_all empty = 0
  truncated_all (more n ns) = truncated_count n + truncated_all ns

mutual
  unfolding mark_truncation_point truncated_count

  mark_truncation_point_one :
      (n : Node) → truncated_count n ≡ 0 → truncated_count (mark_truncation_point n) ≡ 1
  mark_truncation_point_one (leaf i v) h = refl
  mark_truncation_point_one (container i c ns) h = elim (Bool-cases (is_end ns)) [
    | inl none' ↦ rw none' (ground arith)
    | inr some' ↦ rw some' (ground (arith, mark_last_one ns some'))
  ]

  mark_last_one :
      (ns : Nodes) → is_end ns ≡ false → truncated_all ns ≡ 0 → truncated_all (mark_last ns) ≡ 1
  mark_last_one empty e h = ground arith
  mark_last_one (more n ns) e h = elim (Bool-cases (is_end ns)) [
    | inl none' ↦ rw none' (omega (arith, mark_truncation_point_one n (omega arith)))
    | inr some' ↦ rw some' (omega (arith, mark_last_one ns some' (omega arith)))
  ]

mutual
  unfolding build_node truncated_count

  build_node_unmarked :
      (v : Value) (p : Place) (next : ℕ) → truncated_count (build_node v p next).0 ≡ 0
  build_node_unmarked Value.null p next = refl
  build_node_unmarked (Value.bool b) p next = refl
  build_node_unmarked (Value.num n) p next = refl
  build_node_unmarked (Value.str s) p next = refl
  build_node_unmarked (Value.arr vs) p next = omega (arith, build_items_unmarked vs p 0 (suc next))
  build_node_unmarked (Value.obj es) p next = omega (arith, build_entries_unmarked es p (suc next))

  build_items_unmarked :
      (vs : Items) (p : Place) (i next : ℕ) → truncated_all (build_items vs p i next).0 ≡ 0
  build_items_unmarked nil p i next = refl
  build_items_unmarked (cons v vs) p i next = omega (
    arith,
    build_node_unmarked v (item_place p i) next,
    build_items_unmarked vs p (suc i) (build_node v (item_place p i) next).1,
  )

  build_entries_unmarked :
      (es : Entries) (p : Place) (next : ℕ) → truncated_all (build_entries es p next).0 ≡ 0
  build_entries_unmarked end p next = refl
  build_entries_unmarked (entry k v es) p next = omega (
    arith,
    build_node_unmarked v (entry_place p k) next,
    build_entries_unmarked es p (build_node v (entry_place p k) next).1,
  )

pub build_json_tree_unmarked : (v : Value) → truncated_count (build_json_tree v) ≡ 0
unfolding build_json_tree
build_json_tree_unmarked v = build_node_unmarked v root_place 0

-- In the tree of a value no node is marked, and the marking marks exactly one.
pub mark_truncation_point-build_json_tree :
    (v : Value)
    → (truncated_count (build_json_tree v) ≡ 0)
      × (truncated_count (mark_truncation_point (build_json_tree v)) ≡ 1)
mark_truncation_point-build_json_tree v = (
  build_json_tree_unmarked v,
  mark_truncation_point_one (build_json_tree v) (build_json_tree_unmarked v),
)
