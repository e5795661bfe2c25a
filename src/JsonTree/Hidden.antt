-- ===== src/JsonTree/Hidden.antt =====
-- Where the marked node of a truncated document is not among the rows of
-- ui/src/components/json-tree/flatten.ts.
use protospy.Prelude.{
  ℕ, zero, suc, ◌+◌, ◌<◌, ◌≡◌, refl, Bool, true, false, not, List, [], ◌∷◌, ◌++◌, arith, ltb,
  Bool-cases, inl, inr, if◌then◌else◌,
}
use protospy.JsonTree.Model.{
  NodeInfo, ContainerType, Node, leaf, container, Nodes, empty, more, count, is_end,
  mark_truncation_point, mark_last,
}
use protospy.JsonTree.Rows.{
  FlatRow, container_window, container_rows, shown_children, more_rows, has, close_of, flatten_node,
  flatten_children, flatten_tree,
}
use protospy.JsonTree.Truncation.{truncated_count, truncated_all}
use protospy.JsonTree.Marker.{shows_marker, shows_marker-append, count-mark_last, is_end-mark_last}

container_rows_unmarked :
    (i : NodeInfo) (c : ContainerType) (last is_empty is_expanded : Bool) (inner : List FlatRow)
    → i.truncated ≡ false
    → shows_marker inner ≡ false
    → shows_marker (container_rows i c last is_empty is_expanded inner) ≡ false
unfolding container_rows
container_rows_unmarked i c last true is_expanded inner u h = ground arith
container_rows_unmarked i c last false false inner u h = ground arith
container_rows_unmarked i c last false true inner u h =
    ground (arith, shows_marker-append inner (close_of i c (not last) ∷ []))

more_rows_unmarked :
    (i : NodeInfo) (c : ContainerType) (total shown : ℕ)
    → shows_marker (more_rows i c total shown) ≡ false
unfolding more_rows
more_rows_unmarked i c total shown = elim (Bool-cases (ltb shown total)) [
  | inl h ↦ rw h refl
  | inr h ↦ rw h refl
]

append_unmarked :
    (xs ys : List FlatRow)
    → shows_marker xs ≡ false
    → shows_marker ys ≡ false
    → shows_marker (xs ++ ys) ≡ false
append_unmarked xs ys h k = ground (arith, shows_marker-append xs ys)

count_end : (ns : Nodes) → is_end ns ≡ true → count ns ≡ 0
unfolding count is_end
count_end empty h = refl
count_end (more n ns) h = ground arith

not_end : (ns : Nodes) → 0 < count ns → is_end ns ≡ false
unfolding count is_end
not_end empty h = ground arith
not_end (more n ns) h = refl

root_unmarked :
    (i : NodeInfo) (others : ℕ) → (if i.truncated then 1 else 0) + others ≡ 0 → i.truncated ≡ false
root_unmarked i others h = ground arith

module _ (expanded : List ℕ) (limits : List (ℕ × ℕ)) where
  mutual
    unfolding truncated_count flatten_node

    unmarked_node :
        (n : Node) (last : Bool)
        → truncated_count n ≡ 0
        → shows_marker (flatten_node n last expanded limits) ≡ false
    unmarked_node (leaf i v) last u = ground arith
    unmarked_node (container i c ns) last u =
        let shown = shown_children limits i (count ns) in
        let inner = flatten_children ns shown expanded limits in
        let rest = more_rows i c (count ns) shown in
        container_rows_unmarked i c last (is_end ns) (has expanded i.id) (inner ++ rest)
          (ground arith)
          (append_unmarked inner rest (unmarked_children ns shown (omega arith))
            (more_rows_unmarked i c (count ns) shown))

    unmarked_children :
        (ns : Nodes) (shown : ℕ)
        → truncated_all ns ≡ 0
        → shows_marker (flatten_children ns shown expanded limits) ≡ false
    unmarked_children empty shown u = refl
    unmarked_children (more n ns) zero u = refl
    unmarked_children (more n ns) (suc shown) u =
        append_unmarked (flatten_node n (is_end ns) expanded limits)
          (flatten_children ns shown expanded limits) (unmarked_node n (is_end ns) (omega arith))
          (unmarked_children ns shown (omega arith))

  marked_beyond_window :
      (ns : Nodes) (shown : ℕ)
      → truncated_all ns ≡ 0
      → shown < count ns
      → shows_marker (flatten_children (mark_last ns) shown expanded limits) ≡ false
  unfolding truncated_count flatten_node mark_truncation_point
  marked_beyond_window empty shown u h = ground arith
  marked_beyond_window (more n ns) zero u h = elim (Bool-cases (is_end ns)) [
    | inl none' ↦ rw none' refl
    | inr some' ↦ rw some' refl
  ]
  marked_beyond_window (more n ns) (suc shown) u h = elim (Bool-cases (is_end ns)) [
    | inl none' ↦ ground (arith, count_end ns none')
    | inr some' ↦ rw some' (
        append_unmarked (flatten_node n (is_end (mark_last ns)) expanded limits)
          (flatten_children (mark_last ns) shown expanded limits)
          (unmarked_node n (is_end (mark_last ns)) (omega arith))
          (marked_beyond_window ns shown (omega arith) (omega arith)))
  ]

shown_children_window :
    (i : NodeInfo) (total : ℕ)
    → container_window < total
    → shown_children [] i total ≡ container_window
unfolding shown_children
shown_children_window i total h = ground arith

-- A root with more than 100 children, none of them marked before, does not show its mark,
-- whatever is expanded, as long as its window has not been moved.
pub flatten_tree_hides :
    (i : NodeInfo) (c : ContainerType) (ns : Nodes) (expanded : List ℕ)
    → truncated_count (container i c ns) ≡ 0
    → container_window < count ns
    → shows_marker (flatten_tree (mark_truncation_point (container i c ns)) expanded []) ≡ false
unfolding flatten_tree flatten_node mark_truncation_point truncated_count
flatten_tree_hides i c ns expanded u large =
    let inner = flatten_children (mark_last ns) container_window expanded [] in
    let rest = more_rows i c (count ns) container_window in
    let some' = not_end ns (omega (arith, large)) in
    rw
      (
        some',
        is_end-mark_last ns,
        some',
        count-mark_last ns,
        shown_children_window i (count ns) large,
      )
      (container_rows_unmarked i c true false (has expanded i.id) (inner ++ rest)
        (root_unmarked i (truncated_all ns) u)
        (append_unmarked inner rest
          (marked_beyond_window expanded [] ns container_window (omega arith) large)
          (more_rows_unmarked i c (count ns) container_window)))
