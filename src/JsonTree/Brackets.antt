-- ===== src/JsonTree/Brackets.antt =====
-- The rows of ui/src/components/json-tree/flatten.ts as brackets.
use protospy.Prelude.{
  ℕ, zero, suc, ◌≡◌, refl, sym, ap, ◌∙◌, Bool, true, false, not, Option, none, some, List, [], ◌∷◌,
  ◌++◌, append_assoc, append-nil, arith, ◌==◌, ltb, Bool-cases, inl, inr, if◌then◌else◌,
}
use protospy.JsonTree.Model.{
  Node, leaf, container, Nodes, empty, more, NodeInfo, ContainerType, count, is_end,
}
use protospy.JsonTree.Rows.{
  container_rows, FlatRow, FlatRowKind, opening, closing, has, shown_children, more_rows,
  flatten_node, flatten_children, flatten_tree, close_of,
}

-- One row read against the stack of the nodes that are open; `none` is a closing row that does not
-- match the last opening row.
unfoldable pub read_row : FlatRowKind → ℕ → List ℕ → Option (List ℕ)
read_row opening id stack = some (id ∷ stack)
read_row closing id [] = none
read_row closing id (open_id ∷ stack) = if open_id == id then some stack else none
read_row _ id stack = some stack

-- The stack behind a list of rows.
unfoldable pub read_rows : List FlatRow → List ℕ → Option (List ℕ)
unfolding read_row
read_rows [] stack = some stack
read_rows (r ∷ rs) stack = elim (read_row r.kind r.node_id stack) [
  | none ↦ none
  | some stack' ↦ read_rows rs stack'
]

read_rows-more_rows :
    (i : NodeInfo) (c : ContainerType) (total shown : ℕ) (rest : List FlatRow) (stack : List ℕ)
    → read_rows (more_rows i c total shown ++ rest) stack ≡ read_rows rest stack
unfolding read_rows more_rows
read_rows-more_rows i c total shown rest stack = elim (Bool-cases (ltb shown total)) [
  | inl hidden ↦ rw hidden refl
  | inr all ↦ rw all refl
]

read_rows-close_of :
    (i : NodeInfo) (c : ContainerType) (has_comma : Bool) (rest : List FlatRow) (stack : List ℕ)
    → read_rows (close_of i c has_comma ∷ rest) (i.id ∷ stack) ≡ read_rows rest stack
unfolding read_rows
read_rows-close_of i c has_comma rest stack =
    let same : (i.id == i.id) ≡ true = ground arith in rw (same, read_rows) refl

-- The rows of a container, with those inside passed over.
read_rows-container_rows :
    (i : NodeInfo) (c : ContainerType) (last is_empty is_expanded : Bool)
    (inner rest : List FlatRow) (stack : List ℕ)
    → ((rest : List FlatRow) (stack : List ℕ)
        → read_rows (inner ++ rest) stack ≡ read_rows rest stack)
    → read_rows (container_rows i c last is_empty is_expanded inner ++ rest) stack
      ≡ read_rows rest stack
unfolding read_rows container_rows
read_rows-container_rows i c last true is_expanded inner rest stack h = refl
read_rows-container_rows i c last false false inner rest stack h = refl
read_rows-container_rows i c last false true inner rest stack h =
    ap (λ rs. read_rows rs (i.id ∷ stack)) (append_assoc inner (close_of i c (not last) ∷ []) rest)
    ∙ h (close_of i c (not last) ∷ rest) (i.id ∷ stack)
    ∙ read_rows-close_of i c (not last) rest stack

mutual
  unfolding read_rows flatten_node

  read_rows-flatten_node :
      (n : Node) (last : Bool) (expanded : List ℕ) (limits : List (ℕ × ℕ)) (rest : List FlatRow)
      (stack : List ℕ)
      → read_rows (flatten_node n last expanded limits ++ rest) stack ≡ read_rows rest stack
  read_rows-flatten_node (leaf i v) last expanded limits rest stack = refl
  read_rows-flatten_node (container i c ns) last expanded limits rest stack =
      let shown = shown_children limits i (count ns) in
      read_rows-container_rows i c last (is_end ns) (has expanded i.id)
        (flatten_children ns shown expanded limits ++ more_rows i c (count ns) shown) rest stack
        (λ rest' stack'.
          ap (λ rs. read_rows rs stack')
            (append_assoc (flatten_children ns shown expanded limits)
              (more_rows i c (count ns) shown) rest')
          ∙ read_rows-flatten_children ns shown expanded limits
              (more_rows i c (count ns) shown ++ rest') stack'
          ∙ read_rows-more_rows i c (count ns) shown rest' stack')

  read_rows-flatten_children :
      (ns : Nodes) (shown : ℕ) (expanded : List ℕ) (limits : List (ℕ × ℕ)) (rest : List FlatRow)
      (stack : List ℕ)
      → read_rows (flatten_children ns shown expanded limits ++ rest) stack ≡ read_rows rest stack
  read_rows-flatten_children empty shown expanded limits rest stack = refl
  read_rows-flatten_children (more n ns) zero expanded limits rest stack = refl
  read_rows-flatten_children (more n ns) (suc shown) expanded limits rest stack =
      ap (λ rows. read_rows rows stack)
        (append_assoc (flatten_node n (is_end ns) expanded limits)
          (flatten_children ns shown expanded limits) rest)
      ∙ read_rows-flatten_node n (is_end ns) expanded limits
          (flatten_children ns shown expanded limits ++ rest) stack
      ∙ read_rows-flatten_children ns shown expanded limits rest stack

-- The rows of a tree are well bracketed: every opening row is closed by a row of the same node, in
-- the right order, whatever is expanded and however many children are revealed.
pub read_rows-flatten_tree :
    (root : Node) (expanded : List ℕ) (limits : List (ℕ × ℕ)) (stack : List ℕ)
    → read_rows (flatten_tree root expanded limits) stack ≡ some stack
unfolding flatten_tree read_rows
read_rows-flatten_tree root expanded limits stack =
    ap (λ rs. read_rows rs stack) (sym (append-nil (flatten_node root true expanded limits)))
    ∙ read_rows-flatten_node root true expanded limits [] stack
