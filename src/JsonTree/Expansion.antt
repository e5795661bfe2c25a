-- ===== src/JsonTree/Expansion.antt =====
-- Which ids the default expansion of ui/src/components/json-tree/expand.ts holds: the search for them
-- in the tree, and how sets of ids grow.
use protospy.Prelude.{
  ℕ, ◌≡◌, refl, ◌∙◌, Bool, true, false, not, ◌&&◌, ◌||◌, Option, List, [], ◌∷◌, ◌++◌, arith, ◌==◌,
  Bool-cases, inl, inr,
}
use protospy.JsonTree.Model.{Node, leaf, container, Nodes, empty, more, is_end}
use protospy.JsonTree.Rows.{has}
use protospy.JsonTree.Expand.{
  DefaultExpandOptions, add, add_all, is_expanded_at, collect_expanded, collect_children,
  effective_max_depth, compute_default_expanded,
}

-- A container of the tree that has children, lies within the depth, has no more children than the
-- limit and has the id.
unfoldable mutual
  unfolding is_end is_expanded_at

  pub has_open : Node → Option ℕ → ℕ → ℕ → Bool
  has_open (leaf i v) max_depth max_children id = false
  has_open (container i c ns) max_depth max_children id =
      not (is_end ns)
      && ((is_expanded_at i max_depth max_children && i.id == id)
          || any_open ns max_depth max_children id)

  pub any_open : Nodes → Option ℕ → ℕ → ℕ → Bool
  any_open empty max_depth max_children id = false
  any_open (more n ns) max_depth max_children id =
      has_open n max_depth max_children id || any_open ns max_depth max_children id

or_turn : (a b c : Bool) → (a || (b || c)) ≡ ((b || a) || c)
or_turn a b c = ground arith

or_swap : (a b : Bool) → (a || (b || false)) ≡ (b || a)
or_swap a b = ground arith

has-append : (xs ys : List ℕ) (id : ℕ) → has (xs ++ ys) id ≡ (has xs id || has ys id)
unfolding has
has-append [] ys id = refl
has-append (x ∷ xs) ys id = ground (arith, has-append xs ys id)

has_same : (id x : ℕ) (set : List ℕ) → id == x ≡ true → has set id ≡ true → has set x ≡ true
has_same id x set e h = let same : id ≡ x = ground arith in rw same at h

has-add : (id x : ℕ) (set : List ℕ) → has (add id set) x ≡ (id == x || has set x)
unfolding add
has-add id x set = elim (Bool-cases (has set id)) [
  | inl h ↦ elim (Bool-cases (id == x)) [
    | inl e ↦ rw (h, has_same id x set e h, e) refl
    | inr n ↦ rw (h, n) refl
  ]
  | inr h ↦ rw (h, has-append set (id ∷ []) x) (or_swap (has set x) (id == x))
]

pub has-add_all : (ids set : List ℕ) (x : ℕ) → has (add_all ids set) x ≡ (has ids x || has set x)
unfolding add_all
has-add_all [] set x = refl
has-add_all (id ∷ ids) set x = rw (has-add_all ids (add id set) x, has-add id x set) (ground arith)

mutual
  unfolding collect_expanded has_open

  has-collect_expanded :
      (n : Node) (max_depth : Option ℕ) (max_children : ℕ) (out : List ℕ) (x : ℕ)
      → has (collect_expanded n max_depth max_children out) x
        ≡ (has_open n max_depth max_children x || has out x)
  has-collect_expanded (leaf i v) d m out x = refl
  has-collect_expanded (container i c ns) d m out x = elim (Bool-cases (is_end ns)) [
    | inl none' ↦ rw none' refl
    | inr some' ↦ rw some' (elim (Bool-cases (is_expanded_at i d m)) [
      | inl e ↦
          rw (e, has-collect_children ns d m (add i.id out) x, has-add i.id x out)
            (or_turn (any_open ns d m x) (i.id == x) (has out x))
      | inr e ↦ rw (e, has-collect_children ns d m out x) refl
    ])
  ]

  has-collect_children :
      (ns : Nodes) (max_depth : Option ℕ) (max_children : ℕ) (out : List ℕ) (x : ℕ)
      → has (collect_children ns max_depth max_children out) x
        ≡ (any_open ns max_depth max_children x || has out x)
  has-collect_children empty d m out x = refl
  has-collect_children (more n ns) d m out x =
      rw
        (
          has-collect_children ns d m (collect_expanded n d m out) x,
          has-collect_expanded n d m out x,
        )
        (or_turn (any_open ns d m x) (has_open n d m x) (has out x))

-- The set holds what the search in the tree finds.
pub compute_default_expanded-has_open :
    (root : Node) (opts : DefaultExpandOptions) (id : ℕ)
    → has (compute_default_expanded root opts) id
      ≡ has_open root (effective_max_depth root opts) opts.max_children id
unfolding compute_default_expanded has
compute_default_expanded-has_open root opts id =
    has-collect_expanded root (effective_max_depth root opts) opts.max_children [] id ∙ ground arith
