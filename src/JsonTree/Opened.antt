-- ===== src/JsonTree/Opened.antt =====
-- The default expansion of ui/src/components/json-tree/expand.ts against a description of the
-- containers that it holds.
use protospy.Prelude.{
  ℕ, ◌≤◌, ◌≡◌, refl, sym, ◌∙◌, ◌⊎◌, ◌↔◌, inl, inr, Bool, true, ◌&&◌, ◌||◌, leb, ◌==◌, arith,
  Bool-cases,
}
use protospy.JsonTree.Model.{Node, leaf, container, Nodes, empty, more, NodeInfo, info}
use protospy.JsonTree.Rows.{has}
use protospy.JsonTree.Expand.{
  DefaultExpandOptions, within, is_expanded_at, effective_max_depth, compute_default_expanded,
}
use protospy.JsonTree.Expansion.{has_open, any_open, compute_default_expanded-has_open}

-- The predicate holds of a node of the tree, the root included.
abbrev mutual
  pub Somewhere : (Node → Type 0) → Node → Type 0
  Somewhere P (leaf i v) = P (leaf i v)
  Somewhere P (container i c ns) = P (container i c ns) ⊎ SomewhereIn P ns

  pub SomewhereIn : (Node → Type 0) → Nodes → Type 0
  SomewhereIn P empty = ⊥
  SomewhereIn P (more n ns) = Somewhere P n ⊎ SomewhereIn P ns

-- The depth is at most the limit, or the whole tree has so few nodes that there is none.
abbrev pub IsShallow : Node → DefaultExpandOptions → ℕ → Type 0
IsShallow root opts depth =
    (depth ≤ opts.max_depth) ⊎ ((info root).total_nodes ≤ opts.small_tree_node_count)

-- The node has the id, at least one child, no more children than the limit, and is shallow.
abbrev pub IsOpen : Node → DefaultExpandOptions → ℕ → Node → Type 0
IsOpen root opts id (leaf i v) = ⊥
IsOpen root opts id (container i c empty) = ⊥
IsOpen root opts id (container i c (more n ns)) =
    (i.id ≡ id) × (i.child_count ≤ opts.max_children) × IsShallow root opts i.depth

module _ (root : Node) (opts : DefaultExpandOptions) where
  within-IsShallow :
      (depth : ℕ) → within depth (effective_max_depth root opts) ≡ true → IsShallow root opts depth
  unfolding effective_max_depth within
  within-IsShallow depth h =
      elim (Bool-cases (leb (info root).total_nodes opts.small_tree_node_count)) [
        | inl small ↦ inr (ground arith)
        | inr large ↦ let deep = rw large at h in inl (ground arith)
      ]

  IsShallow-within :
      (depth : ℕ) → IsShallow root opts depth → within depth (effective_max_depth root opts) ≡ true
  unfolding effective_max_depth within
  IsShallow-within depth h =
      elim (Bool-cases (leb (info root).total_nodes opts.small_tree_node_count)) [
        | inl small ↦ rw small refl
        | inr large ↦ rw large (ground arith)
      ]

  module _ (id : ℕ) where
    is_expanded_at-IsOpen :
        (i : NodeInfo)
        → (is_expanded_at i (effective_max_depth root opts) opts.max_children && i.id == id) ≡ true
        → (i.id ≡ id) × (i.child_count ≤ opts.max_children) × IsShallow root opts i.depth
    unfolding is_expanded_at
    is_expanded_at-IsOpen i h =
        let inside : within i.depth (effective_max_depth root opts) ≡ true = ground arith in
        (ground arith, ground arith, within-IsShallow i.depth inside)

    IsOpen-is_expanded_at :
        (i : NodeInfo)
        → i.id ≡ id
        → i.child_count ≤ opts.max_children
        → IsShallow root opts i.depth
        → (is_expanded_at i (effective_max_depth root opts) opts.max_children && i.id == id) ≡ true
    unfolding is_expanded_at
    IsOpen-is_expanded_at i same few shallow =
        let inside = IsShallow-within i.depth shallow in ground arith

    either : (a b : Bool) → (a || b) ≡ true → (a ≡ true) ⊎ (b ≡ true)
    either a b h = ground arith

    left_true : (a b : Bool) → a ≡ true → (a || b) ≡ true
    left_true a b h = ground arith

    right_true : (a b : Bool) → b ≡ true → (a || b) ≡ true
    right_true a b h = ground arith

    mutual
      unfolding has_open

      has_open-Somewhere :
          (n : Node)
          → has_open n (effective_max_depth root opts) opts.max_children id ≡ true
          → Somewhere (IsOpen root opts id) n
      has_open-Somewhere (leaf i v) h = cc
      has_open-Somewhere (container i c empty) h = cc
      has_open-Somewhere (container i c (more n ns)) h = elim (either _ _ h) [
        | inl here ↦ inl (is_expanded_at-IsOpen i here)
        | inr below ↦ inr (any_open-Somewhere (more n ns) below)
      ]

      any_open-Somewhere :
          (ns : Nodes)
          → any_open ns (effective_max_depth root opts) opts.max_children id ≡ true
          → SomewhereIn (IsOpen root opts id) ns
      any_open-Somewhere empty h = cc
      any_open-Somewhere (more n ns) h = elim (either _ _ h) [
        | inl first ↦ inl (has_open-Somewhere n first)
        | inr later ↦ inr (any_open-Somewhere ns later)
      ]

    mutual
      unfolding has_open

      Somewhere-has_open :
          (n : Node)
          → Somewhere (IsOpen root opts id) n
          → has_open n (effective_max_depth root opts) opts.max_children id ≡ true
      Somewhere-has_open (leaf i v) h = elim h [ ]
      Somewhere-has_open (container i c empty) (inl h) = elim h [ ]
      Somewhere-has_open (container i c empty) (inr h) = elim h [ ]
      Somewhere-has_open (container i c (more n ns)) (inl (same, few, shallow)) =
          left_true _ _ (IsOpen-is_expanded_at i same few shallow)
      Somewhere-has_open (container i c (more n ns)) (inr below) =
          right_true _ _ (SomewhereIn-any_open (more n ns) below)

      SomewhereIn-any_open :
          (ns : Nodes)
          → SomewhereIn (IsOpen root opts id) ns
          → any_open ns (effective_max_depth root opts) opts.max_children id ≡ true
      SomewhereIn-any_open empty h = elim h [ ]
      SomewhereIn-any_open (more n ns) (inl first) = left_true _ _ (Somewhere-has_open n first)
      SomewhereIn-any_open (more n ns) (inr later) = right_true _ _ (SomewhereIn-any_open ns later)

    -- An id is in the default expansion exactly if a container of the tree has it that has at least
    -- one child, no more children than the limit, and lies within the depth; where the tree has no
    -- more nodes than a small one, at any depth.
    pub has-compute_default_expanded :
        (has (compute_default_expanded root opts) id ≡ true) ↔ Somewhere (IsOpen root opts id) root
    has-compute_default_expanded =
        let same = compute_default_expanded-has_open root opts id in
        (λ h. has_open-Somewhere root (sym same ∙ h), λ h. same ∙ Somewhere-has_open root h)
