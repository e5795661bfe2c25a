-- ===== src/JsonTree/Marker.antt =====
-- Whether the marked node of a truncated document is among the rows of
-- ui/src/components/json-tree/flatten.ts.
use protospy.Prelude.{
  ℕ, suc, ◌≡◌, refl, ap, Bool, true, false, not, ◌&&◌, ◌||◌, List, [], ◌∷◌, ◌++◌, any, All, arith,
  leb, Bool-cases, inl, inr, if◌then◌else◌,
}
use protospy.JsonTree.Model.{
  NodeInfo, ContainerType, Node, leaf, container, Nodes, empty, more, count, is_end, mark_here,
  mark_truncation_point, mark_last, ancestor_ids, ancestors_last,
}
use protospy.JsonTree.Rows.{
  FlatRow, container_window, container_rows, shown_children, more_rows, has, close_of, flatten_node,
  flatten_children, flatten_tree,
}

-- A marker is among the rows.
abbrev pub shows_marker : List FlatRow → Bool
shows_marker rows = any (λ r. r.truncated) rows

pub shows_marker-append :
    (xs ys : List FlatRow) → shows_marker (xs ++ ys) ≡ (shows_marker xs || shows_marker ys)
shows_marker-append [] ys = refl
shows_marker-append (x ∷ xs) ys = ground (arith, shows_marker-append xs ys)

-- No container on the way to the last node has more children than are revealed at first.
unfoldable mutual
  unfolding count is_end

  pub fits_window : Node → Bool
  fits_window (leaf i v) = true
  fits_window (container i c ns) = leb (count ns) container_window && (is_end ns || last_fits ns)

  pub last_fits : Nodes → Bool
  last_fits empty = true
  last_fits (more n ns) = if is_end ns then fits_window n else last_fits ns

abbrev pub AreExpanded : List ℕ → List ℕ → Type 0
AreExpanded ids expanded = All (λ id. has expanded id ≡ true) ids

pub count-mark_last : (ns : Nodes) → count (mark_last ns) ≡ count ns
unfolding count mark_truncation_point
count-mark_last empty = refl
count-mark_last (more n ns) = elim (Bool-cases (is_end ns)) [
  | inl none' ↦ rw none' refl
  | inr some' ↦ rw some' (ap suc (count-mark_last ns))
]

pub is_end-mark_last : (ns : Nodes) → is_end (mark_last ns) ≡ is_end ns
unfolding is_end mark_truncation_point
is_end-mark_last empty = refl
is_end-mark_last (more n ns) = elim (Bool-cases (is_end ns)) [
  | inl none' ↦ rw none' refl
  | inr some' ↦ rw some' refl
]

shown_children_all :
    (limits : List (ℕ × ℕ)) (i : NodeInfo) (total : ℕ)
    → leb total container_window ≡ true
    → shown_children limits i total ≡ total
unfolding shown_children
shown_children_all limits i total h = ground arith

shows_marker-container_rows :
    (i : NodeInfo) (c : ContainerType) (last : Bool) (inner : List FlatRow)
    → shows_marker inner ≡ true
    → shows_marker (container_rows i c last false true inner) ≡ true
unfolding container_rows
shows_marker-container_rows i c last inner h =
    ground (arith, shows_marker-append inner (close_of i c (not last) ∷ []))

any_left : (xs ys : List FlatRow) → shows_marker xs ≡ true → shows_marker (xs ++ ys) ≡ true
any_left xs ys h = ground (arith, shows_marker-append xs ys)

any_right : (xs ys : List FlatRow) → shows_marker ys ≡ true → shows_marker (xs ++ ys) ≡ true
any_right xs ys h = ground (arith, shows_marker-append xs ys)

fits_window-container :
    (i : NodeInfo) (c : ContainerType) (ns : Nodes)
    → is_end ns ≡ false
    → fits_window (container i c ns) ≡ true
    → (leb (count ns) container_window ≡ true) × (last_fits ns ≡ true)
unfolding fits_window
fits_window-container i c ns e f = (ground arith, ground arith)

ancestor_ids-container :
    (i : NodeInfo) (c : ContainerType) (ns : Nodes)
    → is_end ns ≡ false
    → ancestor_ids (container i c ns) ≡ i.id ∷ ancestors_last ns
unfolding ancestor_ids
ancestor_ids-container i c ns e = rw e refl

module _ (expanded : List ℕ) (limits : List (ℕ × ℕ)) where
  marker_shown_in :
      (i : NodeInfo) (c : ContainerType) (ns : Nodes) (last : Bool)
      → is_end ns ≡ false
      → leb (count ns) container_window ≡ true
      → has expanded i.id ≡ true
      → shows_marker (flatten_children (mark_last ns) (count ns) expanded limits) ≡ true
      → shows_marker (flatten_node (container i c (mark_last ns)) last expanded limits) ≡ true
  unfolding flatten_node
  marker_shown_in i c ns last e le h shown =
      rw (is_end-mark_last ns, e, h, count-mark_last ns, shown_children_all limits i (count ns) le)
        (let inner = flatten_children (mark_last ns) (count ns) expanded limits in
          let rest = more_rows i c (count ns) (count ns) in
          shows_marker-container_rows i c last (inner ++ rest) (any_left inner rest shown))

  empty_marker_shown :
      (i : NodeInfo) (c : ContainerType) (ns : Nodes) (last : Bool)
      → is_end ns ≡ true
      → shows_marker (flatten_node (container (mark_here i) c ns) last expanded limits) ≡ true
  unfolding flatten_node
  empty_marker_shown i c ns last e = rw (e, container_rows) refl

  first_marker_shown :
      (n : Node) (ns : Nodes)
      → shows_marker (flatten_node n (is_end ns) expanded limits) ≡ true
      → shows_marker (flatten_children (more n ns) (count (more n ns)) expanded limits) ≡ true
  unfolding flatten_node
  first_marker_shown n ns h =
      any_left (flatten_node n (is_end ns) expanded limits)
        (flatten_children ns (count ns) expanded limits) h

  later_marker_shown :
      (n : Node) (ns : Nodes)
      → shows_marker (flatten_children (mark_last ns) (count ns) expanded limits) ≡ true
      → shows_marker (flatten_children (more n (mark_last ns)) (count (more n ns)) expanded limits)
        ≡ true
  unfolding flatten_node
  later_marker_shown n ns h =
      any_right (flatten_node n (is_end (mark_last ns)) expanded limits)
        (flatten_children (mark_last ns) (count ns) expanded limits) h

  mutual
    unfolding mark_truncation_point fits_window flatten_node ancestor_ids

    marker_shown :
        (n : Node) (last : Bool)
        → fits_window n ≡ true
        → AreExpanded (ancestor_ids n) expanded
        → shows_marker (flatten_node (mark_truncation_point n) last expanded limits) ≡ true
    marker_shown (leaf i v) last f a = refl
    marker_shown (container i c ns) last f a = elim (Bool-cases (is_end ns)) [
      | inl none' ↦ rw none' (empty_marker_shown i c ns last none')
      | inr some' ↦
          let w = fits_window-container i c ns some' f in
          let ex = rw (ancestor_ids-container i c ns some') at a in
          rw some'
            (marker_shown_in i c ns last some' w.0 ex.0 (last_marker_shown ns some' w.1 ex.1))
    ]

    last_marker_shown :
        (ns : Nodes)
        → is_end ns ≡ false
        → last_fits ns ≡ true
        → AreExpanded (ancestors_last ns) expanded
        → shows_marker (flatten_children (mark_last ns) (count ns) expanded limits) ≡ true
    last_marker_shown empty e f a = ground arith
    last_marker_shown (more n ns) e f a = elim (Bool-cases (is_end ns)) [
      | inl none' ↦ rw none' (
          first_marker_shown (mark_truncation_point n) ns
            (marker_shown n (is_end ns) (rw none' at f) (rw none' at a)))
      | inr some' ↦
          rw some'
            (later_marker_shown n ns (last_marker_shown ns some' (rw some' at f) (rw some' at a)))
    ]

-- In a tree whose containers on the way to the last node have at most 100 children each, the
-- marked node is among the rows once the ids that `markTruncationPoint` returns are expanded.
pub flatten_tree-mark_truncation_point :
    (root : Node) (expanded : List ℕ) (limits : List (ℕ × ℕ))
    → fits_window root ≡ true
    → AreExpanded (ancestor_ids root) expanded
    → shows_marker (flatten_tree (mark_truncation_point root) expanded limits) ≡ true
unfolding flatten_tree
flatten_tree-mark_truncation_point root expanded limits fits open_ids =
    marker_shown expanded limits root true fits open_ids
