-- ===== src/JsonTree/Budget.antt =====
-- The budget of `computeForestDefaultExpanded` in ui/src/components/json-tree/expand.ts: what
-- documents that are over it do to those behind them.
use protospy.Prelude.{
  ℕ, ◌+◌, ◌-◌, ◌≤◌, ◌≡◌, ◌≢◌, refl, ap, ◌∙◌, Bool, true, false, ◌||◌, List, [], ◌∷◌, ◌++◌, All, ltb,
  leb, arith, if◌then◌else◌, Bool-cases, inl, inr,
}
use protospy.JsonTree.Model.{Node, Nodes, empty, more, info}
use protospy.JsonTree.Rows.{has}
use protospy.JsonTree.Expand.{
  DefaultExpandOptions, forest_expand_budget, add_all, remove, settle, compute_default_expanded,
  expand_documents, compute_forest_default_expanded,
}
use protospy.JsonTree.Expansion.{has-add_all}
use protospy.JsonTree.Opened.{Somewhere, IsOpen, has-compute_default_expanded}

-- Documents with their sizes.
abbrev pub roots_of : List (Node × ℕ) → Nodes
roots_of [] = empty
roots_of ((root, size) ∷ documents) = more root (roots_of documents)

abbrev pub sizes_of : List (Node × ℕ) → List ℕ
sizes_of [] = []
sizes_of ((root, size) ∷ documents) = size ∷ sizes_of documents

-- The sizes of the documents that are not over the whole budget, in sum.
abbrev pub small_sizes : List (Node × ℕ) → ℕ
small_sizes [] = 0
small_sizes ((root, size) ∷ documents) =
    (if leb size forest_expand_budget then size else 0) + small_sizes documents

expand_documents_over :
    (root : Node) (roots : Nodes) (opts : DefaultExpandOptions) (size : ℕ) (sizes : List ℕ)
    (budget : ℕ) (expanded : List ℕ)
    → ltb budget size ≡ true
    → expand_documents (more root roots) opts (size ∷ sizes) budget expanded
      ≡ expand_documents roots opts sizes budget
          (remove (info root).id (add_all (compute_default_expanded root opts) expanded))
unfolding expand_documents
expand_documents_over root roots opts size sizes budget expanded over = rw (over, settle) refl

expand_documents_fits :
    (root : Node) (roots : Nodes) (opts : DefaultExpandOptions) (size : ℕ) (sizes : List ℕ)
    (budget : ℕ) (expanded : List ℕ)
    → ltb budget size ≡ false
    → expand_documents (more root roots) opts (size ∷ sizes) budget expanded
      ≡ expand_documents roots opts sizes
          (budget - size)
          (add_all (compute_default_expanded root opts) expanded)
unfolding expand_documents
expand_documents_fits root roots opts size sizes budget expanded fits = rw (fits, settle) refl

has-remove_ne :
    (root id : ℕ) (set : List ℕ) → root ≢ id → has set id ≡ true → has (remove root set) id ≡ true
unfolding remove has
has-remove_ne root id [] ne h = cc
has-remove_ne root id (x ∷ set) ne h = ground (arith, has-remove_ne root id set ne)

or_right : (a b : Bool) → b ≡ true → (a || b) ≡ true
or_right a b h = ground arith

or_left : (a b : Bool) → a ≡ true → (a || b) ≡ true
or_left a b h = ground arith

has-add_all_old : (ids set : List ℕ) (id : ℕ) → has set id ≡ true → has (add_all ids set) id ≡ true
has-add_all_old ids set id h = has-add_all ids set id ∙ or_right (has ids id) (has set id) h

module _ (opts : DefaultExpandOptions) (id : ℕ) where
  -- An id that is no root's stays.
  expand_documents-keeps :
      (documents : List (Node × ℕ)) (budget : ℕ) (expanded : List ℕ)
      → All (λ d. (info d.0).id ≢ id) documents
      → has expanded id ≡ true
      → has (expand_documents (roots_of documents) opts (sizes_of documents) budget expanded) id
        ≡ true
  unfolding expand_documents
  expand_documents-keeps [] budget expanded others h = h
  expand_documents-keeps ((root, size) ∷ documents) budget expanded (other, others) h =
      let added = has-add_all_old (compute_default_expanded root opts) expanded id h in
      let set = add_all (compute_default_expanded root opts) expanded in
      elim (Bool-cases (ltb budget size)) [
        | inl over ↦
            ap (λ ids. has ids id)
              (expand_documents_over root (roots_of documents) opts size (sizes_of documents) budget
                expanded over)
            ∙ expand_documents-keeps documents budget (remove (info root).id set) others
                (has-remove_ne (info root).id id set other added)
        | inr fits ↦
            ap (λ ids. has ids id)
              (expand_documents_fits root (roots_of documents) opts size (sizes_of documents) budget
                expanded fits)
            ∙ expand_documents-keeps documents (budget - size) set others added
      ]

  module _ (doc : Node) (size : ℕ) (behind : List (Node × ℕ)) where
    expand_documents-fitting :
        (before : List (Node × ℕ)) (budget : ℕ) (expanded : List ℕ)
        → small_sizes before + size ≤ budget
        → budget ≤ forest_expand_budget
        → All (λ d. (info d.0).id ≢ id) behind
        → has (compute_default_expanded doc opts) id ≡ true
        → has
            (expand_documents
              (roots_of (before ++ (doc, size) ∷ behind))
              opts
              (sizes_of (before ++ (doc, size) ∷ behind))
              budget
              expanded)
            id
          ≡ true
    expand_documents-fitting [] budget expanded room bound others opened =
        let fits : ltb budget size ≡ false = ground arith in
        ap (λ ids. has ids id)
          (expand_documents_fits doc (roots_of behind) opts size (sizes_of behind) budget expanded
            fits)
        ∙ expand_documents-keeps behind (budget - size)
            (add_all (compute_default_expanded doc opts) expanded) others
            (has-add_all (compute_default_expanded doc opts) expanded id
              ∙ or_left (has (compute_default_expanded doc opts) id) (has expanded id) opened)
    expand_documents-fitting ((root, s) ∷ before) budget expanded room bound others opened =
        let documents = before ++ (doc, size) ∷ behind in
        let set = add_all (compute_default_expanded root opts) expanded in
        elim (Bool-cases (ltb budget s)) [
          | inl over ↦
              ap (λ ids. has ids id)
                (expand_documents_over root (roots_of documents) opts s (sizes_of documents) budget
                  expanded over)
              ∙ expand_documents-fitting before budget (remove (info root).id set) (ground arith)
                  bound others opened
          | inr fits ↦
              ap (λ ids. has ids id)
                (expand_documents_fits root (roots_of documents) opts s (sizes_of documents) budget
                  expanded fits)
              ∙ expand_documents-fitting before (budget - s) set (ground arith) (ground arith)
                  others opened
        ]

-- A document whose size fits into the budget together with those documents before it that are not
-- themselves over the whole budget is expanded as it is alone, however many documents before it are
-- over the budget: what is open in it by default is open, as long as it is not the root of a
-- document behind it.
pub compute_forest_default_expanded_later :
    (opts : DefaultExpandOptions) (before behind : List (Node × ℕ)) (doc : Node) (size id : ℕ)
    → small_sizes before + size ≤ forest_expand_budget
    → All (λ d. (info d.0).id ≢ id) behind
    → Somewhere (IsOpen doc opts id) doc
    → has
        (compute_forest_default_expanded
          (roots_of (before ++ (doc, size) ∷ behind))
          opts
          (sizes_of (before ++ (doc, size) ∷ behind)))
        id
      ≡ true
unfolding compute_forest_default_expanded
compute_forest_default_expanded_later opts before behind doc size id room others opened =
    expand_documents-fitting opts id doc size behind before forest_expand_budget [] room
      (ground arith) others ((has-compute_default_expanded doc opts id).1 opened)
