-- ===== src/JsonTree/Expand.antt =====
-- ui/src/components/json-tree/expand.ts: which containers are open at first. A `Set` is its
-- elements in the order of insertion. `Infinity` is `none`.
use protospy.Prelude.{
  ℕ, ◌-◌, Bool, true, false, not, ◌&&◌, Option, none, some, List, [], ◌∷◌, ◌++◌, leb, ltb, ◌==◌,
  if◌then◌else◌, filter,
}
use protospy.JsonTree.Model.{NodeInfo, Node, leaf, container, Nodes, empty, more, info, is_end}
use protospy.JsonTree.Rows.{has, large_container_child_count}

abbrev pub default_expand_depth : ℕ
default_expand_depth = 4

abbrev pub small_tree_node_count : ℕ
small_tree_node_count = 50

abbrev pub forest_expand_budget : ℕ
forest_expand_budget = 32_768

-- the options with their defaults put in
pub record DefaultExpandOptions : Type 0 where
  pub max_depth : ℕ
  pub max_children : ℕ
  pub small_tree_node_count : ℕ

abbrev pub default_options : DefaultExpandOptions
default_options = record {
  max_depth = default_expand_depth;
  max_children = large_container_child_count;
  small_tree_node_count = small_tree_node_count;
}

-- `set.add(id)`
unfoldable pub add : ℕ → List ℕ → List ℕ
unfolding has
add id set = if has set id then set else set ++ id ∷ []

-- `for (const id of ids) set.add(id)`
unfoldable pub add_all : List ℕ → List ℕ → List ℕ
unfolding add
add_all [] set = set
add_all (id ∷ ids) set = add_all ids (add id set)

-- `set.delete(id)`
unfoldable pub remove : ℕ → List ℕ → List ℕ
remove id set = filter (λ x. not (x == id)) set

-- `depth <= maxDepth`, where no bound is `Infinity`
unfoldable pub within : ℕ → Option ℕ → Bool
within depth none = true
within depth (some max) = leb depth max

unfoldable pub is_expanded_at : NodeInfo → Option ℕ → ℕ → Bool
unfolding within
is_expanded_at i max_depth max_children = within i.depth max_depth && leb i.child_count max_children

-- `collectExpanded`
unfoldable mutual
  unfolding is_end is_expanded_at add

  pub collect_expanded : Node → Option ℕ → ℕ → List ℕ → List ℕ
  collect_expanded (leaf i v) max_depth max_children out = out
  collect_expanded (container i c ns) max_depth max_children out =
      if is_end ns
      then out
      else collect_children ns max_depth max_children
          (if is_expanded_at i max_depth max_children then add i.id out else out)

  pub collect_children : Nodes → Option ℕ → ℕ → List ℕ → List ℕ
  collect_children empty max_depth max_children out = out
  collect_children (more n ns) max_depth max_children out =
      collect_children ns max_depth max_children (collect_expanded n max_depth max_children out)

-- `effectiveMaxDepth`
unfoldable pub effective_max_depth : Node → DefaultExpandOptions → Option ℕ
effective_max_depth root opts =
    if leb (info root).total_nodes opts.small_tree_node_count then none else some opts.max_depth

unfoldable pub compute_default_expanded : Node → DefaultExpandOptions → List ℕ
unfolding effective_max_depth collect_expanded
compute_default_expanded root opts =
    collect_expanded root (effective_max_depth root opts) opts.max_children []

-- `size > budget`, where a missing size is `Infinity`
unfoldable pub over_budget : Option ℕ → ℕ → Bool
over_budget none budget = true
over_budget (some size) budget = ltb budget size

abbrev pub size_or_zero : Option ℕ → ℕ
size_or_zero none = 0
size_or_zero (some size) = size

-- `documentSizes?.[i]` for the document at hand, and the sizes of those behind it
abbrev pub next_size : List ℕ → Option ℕ
next_size [] = none
next_size (s ∷ sizes) = some s

abbrev pub later_sizes : List ℕ → List ℕ
later_sizes [] = []
later_sizes (s ∷ sizes) = sizes

-- the set and the budget behind a document, by whether it is over the budget
unfoldable pub settle : Bool → Node → Option ℕ → ℕ → List ℕ → List ℕ × ℕ
unfolding remove
settle true root size budget expanded = (remove (info root).id expanded, budget)
settle false root size budget expanded = (expanded, budget - size_or_zero size)

-- the loop of `computeForestDefaultExpanded`; no sizes at all is the empty list
unfoldable pub expand_documents :
    Nodes → DefaultExpandOptions → List ℕ → (budget : ℕ) → List ℕ → List ℕ
unfolding compute_default_expanded add_all settle over_budget
expand_documents empty opts sizes budget expanded = expanded
expand_documents (more root roots) opts sizes budget expanded =
    let added = add_all (compute_default_expanded root opts) expanded in
    let size = next_size sizes in
    let settled = settle (over_budget size budget) root size budget added in
    expand_documents roots opts (later_sizes sizes) settled.1 settled.0

unfoldable pub compute_forest_default_expanded : Nodes → DefaultExpandOptions → List ℕ → List ℕ
unfolding expand_documents
compute_forest_default_expanded roots opts document_sizes =
    expand_documents roots opts document_sizes forest_expand_budget []
