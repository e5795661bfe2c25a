-- ===== src/JsonTree/Numbering.antt =====
-- The ids and the node counts that `buildNode` of ui/src/components/json-tree/model.ts assigns.
use protospy.Prelude.{ℕ, zero, suc, ◌+◌, ◌≡◌, refl, sym, ap, List, [], ◌∷◌, ◌++◌, arith}
use protospy.Wire.{Value, Items, nil, cons, Entries, end, entry}
use protospy.JsonTree.Model.{
  Node, leaf, container, Nodes, empty, more, info, Place, item_place, entry_place, root_place,
  sum_total, build_node, build_items, build_entries, build_json_tree, build_forest_from,
  build_json_forest, count_nodes, count_all,
}

-- The ids of a tree, a node before its children.
unfoldable mutual
  pub ids : Node → List ℕ
  ids (leaf i v) = i.id ∷ []
  ids (container i c ns) = i.id ∷ all_ids ns

  pub all_ids : Nodes → List ℕ
  all_ids empty = []
  all_ids (more n ns) = ids n ++ all_ids ns

-- `n` numbers from `a` on.
unfoldable pub range : ℕ → ℕ → List ℕ
range a zero = []
range a (suc n) = a ∷ range (suc a) n

range-append : (a m n : ℕ) → range a (m + n) ≡ range a m ++ range (a + m) n
unfolding range
range-append a zero n =
    let e : zero + n ≡ n = omega arith in let f : a + zero ≡ a = omega arith in rw (e, f)
range-append a (suc m) n =
    let e : suc m + n ≡ suc (m + n) = omega arith in
    let f : a + suc m ≡ suc a + m = omega arith in rw (e, f) (ap (◌∷◌ a) (range-append (suc a) m n))

-- The nodes are numbered without a gap from `lo` up to `hi`, and `totalNodes` counts them.
pub record IsNumbered (n : Node) (lo hi : ℕ) : Type 0 where
  pub numbers : ids n ≡ range lo (count_nodes n)
  pub next : hi ≡ lo + count_nodes n
  pub total : (info n).total_nodes ≡ count_nodes n

record AreNumbered (ns : Nodes) (lo hi : ℕ) : Type 0 where
  numbers : all_ids ns ≡ range lo (count_all ns)
  next : hi ≡ lo + count_all ns
  total : sum_total ns ≡ suc (count_all ns)

AreNumbered-more :
    (n : Node) (ns : Nodes) (lo mid hi : ℕ)
    → IsNumbered n lo mid
    → AreNumbered ns mid hi
    → AreNumbered (more n ns) lo hi
unfolding ids count_nodes sum_total
AreNumbered-more n ns lo mid hi first rest = record {
  numbers =
      rw (first.numbers, rest.numbers, first.next)
        (sym (range-append lo (count_nodes n) (count_all ns)));
  next = omega (arith, first.next, rest.next);
  total = omega (arith, first.total, rest.total);
}

mutual
  unfolding build_node ids count_nodes range sum_total

  build_node-IsNumbered :
      (v : Value) (p : Place) (next : ℕ)
      → IsNumbered (build_node v p next).0 next (build_node v p next).1
  build_node-IsNumbered Value.null p next = record {
    numbers = refl;
    next = omega arith;
    total = refl;
  }
  build_node-IsNumbered (Value.bool b) p next = record {
    numbers = refl;
    next = omega arith;
    total = refl;
  }
  build_node-IsNumbered (Value.num n) p next = record {
    numbers = refl;
    next = omega arith;
    total = refl;
  }
  build_node-IsNumbered (Value.str s) p next = record {
    numbers = refl;
    next = omega arith;
    total = refl;
  }
  build_node-IsNumbered (Value.arr vs) p next =
      let all = build_items-AreNumbered vs p 0 (suc next) in
      record {
        numbers = ap (◌∷◌ next) all.numbers;
        next = omega (arith, all.next);
        total = all.total;
      }
  build_node-IsNumbered (Value.obj es) p next =
      let all = build_entries-AreNumbered es p (suc next) in
      record {
        numbers = ap (◌∷◌ next) all.numbers;
        next = omega (arith, all.next);
        total = all.total;
      }

  build_items-AreNumbered :
      (vs : Items) (p : Place) (i next : ℕ)
      → AreNumbered (build_items vs p i next).0 next (build_items vs p i next).1
  build_items-AreNumbered nil p i next = record { numbers = refl; next = omega arith; total = refl }
  build_items-AreNumbered (cons v vs) p i next =
      AreNumbered-more _ _ next _ _ (build_node-IsNumbered v (item_place p i) next)
        (build_items-AreNumbered vs p (suc i) (build_node v (item_place p i) next).1)

  build_entries-AreNumbered :
      (es : Entries) (p : Place) (next : ℕ)
      → AreNumbered (build_entries es p next).0 next (build_entries es p next).1
  build_entries-AreNumbered end p next = record { numbers = refl; next = omega arith; total = refl }
  build_entries-AreNumbered (entry k v es) p next =
      AreNumbered-more _ _ next _ _ (build_node-IsNumbered v (entry_place p k) next)
        (build_entries-AreNumbered es p (build_node v (entry_place p k) next).1)

-- The tree of a value has its nodes numbered 0, 1, 2, … in preorder, with no gap and no id twice,
-- and `totalNodes` of its root is the number of its nodes.
pub build_json_tree_numbered :
    (v : Value)
    → (ids (build_json_tree v) ≡ range 0 (count_nodes (build_json_tree v)))
      × ((info (build_json_tree v)).total_nodes ≡ count_nodes (build_json_tree v))
unfolding build_json_tree
build_json_tree_numbered v = let n = build_node-IsNumbered v root_place 0 in (n.numbers, n.total)

build_forest_from_numbered :
    (vs : List Value) (next : ℕ)
    → all_ids (build_forest_from vs next) ≡ range next (count_all (build_forest_from vs next))
unfolding build_forest_from ids range count_nodes
build_forest_from_numbered [] next = refl
build_forest_from_numbered (v ∷ vs) next =
    let n = build_node-IsNumbered v root_place next in
    rw (n.numbers, build_forest_from_numbered vs (build_node v root_place next).1, n.next)
      (sym (range-append next _ _))

-- The trees of a forest share one numbering: the ids of all documents together are 0, 1, 2, …
pub build_json_forest_numbered :
    (vs : List Value) → all_ids (build_json_forest vs) ≡ range 0 (count_all (build_json_forest vs))
unfolding build_json_forest
build_json_forest_numbered vs = build_forest_from_numbered vs 0
