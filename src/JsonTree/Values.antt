-- ===== src/JsonTree/Values.antt =====
-- `nodeToValue` of ui/src/components/json-tree/model.ts, with what it uses of JavaScript objects.
use protospy.Prelude.{
  ℕ, ◌+◌, ◌-◌, ◌*◌, Bool, true, false, ◌&&◌, ◌||◌, Option, none, some, [], ◌∷◌, Text, codes,
  text_eq, leb, ltb, ◌==◌, if◌then◌else◌,
}
use protospy.Wire.{Value, Items, nil, cons, Entries, end, entry}
use protospy.JsonTree.Model.{
  Primitive, null, bool, num, str, object, array, Node, leaf, container, Nodes, empty, more, info,
}

unfoldable pub is_digit : ℕ → Bool
is_digit c = leb b'0' c && leb c b'9'

unfoldable pub digits_value : ℕ → Text → Option ℕ
unfolding is_digit
digits_value acc [] = some acc
digits_value acc (c ∷ s) = if is_digit c then digits_value (acc * 10 + (c - b'0')) s else none

-- the array index that a key spells, if it does: digits with no leading zero, below 2 ^ 32 - 1
unfoldable pub array_index : Text → Option ℕ
unfolding digits_value
array_index [] = none
array_index (c ∷ []) = digits_value 0 (c ∷ [])
array_index (c ∷ d ∷ s) = if c == b'0' then none else elim (digits_value 0 (c ∷ d ∷ s)) [
  | none ↦ none
  | some n ↦ if ltb n 4294967295 then some n else none
]

-- the order of own properties: array indices first, by their numbers; then the other keys, by age
unfoldable pub goes_before : Text → Text → Bool
unfolding array_index
goes_before new old = elim (array_index new) [
  | none ↦ false
  | some n ↦ elim (array_index old) [ none ↦ true | some m ↦ ltb n m ]
]

-- a new property in its place
unfoldable pub insert_property : Text → Value → Entries → Entries
unfolding goes_before
insert_property k v end = entry k v end
insert_property k v (entry j w es) =
    if goes_before k j then entry k v (entry j w es) else entry j w (insert_property k v es)

unfoldable pub has_property : Text → Entries → Bool
unfolding text_eq
has_property k end = false
has_property k (entry j w es) = text_eq j k || has_property k es

unfoldable pub replace_property : Text → Value → Entries → Entries
unfolding text_eq
replace_property k v end = end
replace_property k v (entry j w es) =
    if text_eq j k then entry j v es else entry j w (replace_property k v es)

-- `obj[k] = v`: an assignment to `__proto__` sets the prototype and makes no property
unfoldable pub set_property : Text → Value → Entries → Entries
unfolding insert_property has_property replace_property text_eq
set_property k v es =
    if text_eq k (codes "__proto__")
    then es
    else if has_property k es
    then replace_property k v es
    else insert_property k v es

-- `child.key ?? ""`
abbrev pub key_or_empty : Option Text → Text
key_or_empty none = []
key_or_empty (some k) = k

abbrev pub primitive_value : Primitive → Value
primitive_value null = Value.null
primitive_value (bool b) = Value.bool b
primitive_value (num n) = Value.num n
primitive_value (str s) = Value.str s

-- `nodeToValue`; the object is built up from the entries so far
unfoldable mutual
  unfolding set_property

  pub node_to_value : Node → Value
  node_to_value (leaf i v) = primitive_value v
  node_to_value (container i array ns) = Value.arr (nodes_to_items ns)
  node_to_value (container i object ns) = Value.obj (nodes_to_entries ns end)

  pub nodes_to_items : Nodes → Items
  nodes_to_items empty = nil
  nodes_to_items (more n ns) = cons (node_to_value n) (nodes_to_items ns)

  pub nodes_to_entries : Nodes → Entries → Entries
  nodes_to_entries empty obj = obj
  nodes_to_entries (more n ns) obj =
      nodes_to_entries ns (set_property (key_or_empty (info n).key) (node_to_value n) obj)
