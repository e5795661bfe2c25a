-- ===== src/JsonTree/CopyValue.antt =====
-- `nodeToValue` of ui/src/components/json-tree/model.ts, the "copy value" of the viewer, against
-- the value that the tree was built from.
use protospy.Prelude.{
  ℕ, suc, ◌≡◌, refl, sym, ap, ◌∙◌, false, List, [], ◌∷◌, ◌++◌, Text, codes, text_eq, All,
}
use protospy.Wire.{Value, Items, nil, cons, Entries, end, entry}
use protospy.JsonTree.Model.{
  info, Place, item_place, entry_place, root_place, build_node, build_items, build_entries,
  build_json_tree,
}
use protospy.JsonTree.Values.{
  goes_before, insert_property, has_property, set_property, node_to_value, nodes_to_items,
  nodes_to_entries,
}

abbrev pub property_keys : Entries → List Text
property_keys end = []
property_keys (entry k v es) = k ∷ property_keys es

abbrev pub append_entries : Entries → Entries → Entries
append_entries end fs = fs
append_entries (entry k v es) fs = entry k v (append_entries es fs)

-- The key is none of the earlier ones, and is not ordered before any of them.
abbrev pub IsNewKey : Text → List Text → Type 0
IsNewKey k seen = All (λ j. (text_eq j k ≡ false) × (goes_before k j ≡ false)) seen

-- The entries as `Object.entries` lists them: no key twice, array indices first in their order;
-- and no key `__proto__`. The same of the values inside.
abbrev mutual
  pub IsWellKeyed : Value → Type 0
  IsWellKeyed Value.null = Unit
  IsWellKeyed (Value.bool b) = Unit
  IsWellKeyed (Value.num n) = Unit
  IsWellKeyed (Value.str s) = Unit
  IsWellKeyed (Value.arr vs) = AreWellKeyed vs
  IsWellKeyed (Value.obj es) = AreOrdered es []

  pub AreWellKeyed : Items → Type 0
  AreWellKeyed nil = Unit
  AreWellKeyed (cons v vs) = IsWellKeyed v × AreWellKeyed vs

  pub AreOrdered : Entries → List Text → Type 0
  AreOrdered end seen = Unit
  AreOrdered (entry k v es) seen =
      (text_eq k (codes "__proto__") ≡ false)
      × IsNewKey k seen
      × IsWellKeyed v
      × AreOrdered es (seen ++ k ∷ [])

has_property_new :
    (k : Text) (es : Entries) → IsNewKey k (property_keys es) → has_property k es ≡ false
unfolding has_property
has_property_new k end h = refl
has_property_new k (entry j w es) h = rw (h.0.0) (has_property_new k es h.1)

insert_property_new :
    (k : Text) (v : Value) (es : Entries)
    → IsNewKey k (property_keys es)
    → insert_property k v es ≡ append_entries es (entry k v end)
unfolding insert_property
insert_property_new k v end h = refl
insert_property_new k v (entry j w es) h =
    rw (h.0.1) (ap (entry j w) (insert_property_new k v es h.1))

-- Setting a new key adds it at the end.
set_property_new :
    (k : Text) (v : Value) (es : Entries)
    → text_eq k (codes "__proto__") ≡ false
    → IsNewKey k (property_keys es)
    → set_property k v es ≡ append_entries es (entry k v end)
unfolding set_property
set_property_new k v es p h = rw (p, has_property_new k es h) (insert_property_new k v es h)

append_entries_assoc :
    (es : Entries) (k : Text) (v : Value) (fs : Entries)
    → append_entries (append_entries es (entry k v end)) fs ≡ append_entries es (entry k v fs)
append_entries_assoc end k v fs = refl
append_entries_assoc (entry j w es) k v fs = ap (entry j w) (append_entries_assoc es k v fs)

append_entries-end : (es : Entries) → append_entries es end ≡ es
append_entries-end end = refl
append_entries-end (entry j w es) = ap (entry j w) (append_entries-end es)

keys-append_entries :
    (es : Entries) (k : Text) (v : Value)
    → property_keys (append_entries es (entry k v end)) ≡ property_keys es ++ k ∷ []
keys-append_entries end k v = refl
keys-append_entries (entry j w es) k v = ap (◌∷◌ j) (keys-append_entries es k v)

info-build_node-key :
    (v : Value) (p : Place) (next : ℕ) → (info (build_node v p next).0).key ≡ p.key
unfolding build_node
info-build_node-key Value.null p next = refl
info-build_node-key (Value.bool b) p next = refl
info-build_node-key (Value.num n) p next = refl
info-build_node-key (Value.str s) p next = refl
info-build_node-key (Value.arr vs) p next = refl
info-build_node-key (Value.obj es) p next = refl

mutual
  unfolding build_node node_to_value

  node_to_value-build_node :
      (v : Value) (p : Place) (next : ℕ) → IsWellKeyed v → node_to_value (build_node v p next).0 ≡ v
  node_to_value-build_node Value.null p next h = refl
  node_to_value-build_node (Value.bool b) p next h = refl
  node_to_value-build_node (Value.num n) p next h = refl
  node_to_value-build_node (Value.str s) p next h = refl
  node_to_value-build_node (Value.arr vs) p next h =
      ap Value.arr (nodes_to_items-build_items vs p 0 (suc next) h)
  node_to_value-build_node (Value.obj es) p next h =
      ap Value.obj (nodes_to_entries-build_entries es p (suc next) end h)

  nodes_to_items-build_items :
      (vs : Items) (p : Place) (i next : ℕ)
      → AreWellKeyed vs
      → nodes_to_items (build_items vs p i next).0 ≡ vs
  nodes_to_items-build_items nil p i next h = refl
  nodes_to_items-build_items (cons v vs) p i next h = rw (
    node_to_value-build_node v (item_place p i) next h.0,
    nodes_to_items-build_items vs p (suc i) (build_node v (item_place p i) next).1 h.1,
  )

  nodes_to_entries-build_entries :
      (es : Entries) (p : Place) (next : ℕ) (obj : Entries)
      → AreOrdered es (property_keys obj)
      → nodes_to_entries (build_entries es p next).0 obj ≡ append_entries obj es
  nodes_to_entries-build_entries end p next obj h = sym (append_entries-end obj)
  nodes_to_entries-build_entries (entry k v es) p next obj h =
      rw
        (
          info-build_node-key v (entry_place p k) next,
          node_to_value-build_node v (entry_place p k) next h.2,
          set_property_new k v obj h.0 h.1,
        )
        (nodes_to_entries-build_entries es p (build_node v (entry_place p k) next).1
            (append_entries obj (entry k v end)) (rw (keys-append_entries obj k v) h.3)
          ∙ append_entries_assoc obj k v es)

-- Copying the root of the tree of a value gives the value back, where its objects are as
-- `Object.entries` lists them and have no key `__proto__`.
pub node_to_value-build_json_tree :
    (v : Value) → IsWellKeyed v → node_to_value (build_json_tree v) ≡ v
unfolding build_json_tree
node_to_value-build_json_tree v h = node_to_value-build_node v root_place 0 h

-- A property `__proto__` is lost: the copy of an object that begins with one is the rest of the
-- object.
pub node_to_value_proto :
    (w : Value) (es : Entries)
    → IsWellKeyed (Value.obj es)
    → node_to_value (build_json_tree (Value.obj (entry (codes "__proto__") w es))) ≡ Value.obj es
unfolding build_json_tree build_node node_to_value set_property
node_to_value_proto w es h =
    let at = build_node w (entry_place root_place (codes "__proto__")) 1 in
    rw (info-build_node-key w (entry_place root_place (codes "__proto__")) 1)
      (ap Value.obj (nodes_to_entries-build_entries es root_place at.1 end h))
