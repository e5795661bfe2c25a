-- ===== src/JsonParse/Pretty.antt =====
-- `JSON.stringify` on JSON values, with an indentation of two spaces and without.
use protospy.Prelude.{
  ℕ, suc, ◌*◌, true, false, ◌||◌, [], ◌∷◌, ◌++◌, Text, codes, text_eq, replicate, if◌then◌else◌,
}
use protospy.Wire.{Value, Items, nil, cons, Entries, end, entry}
use protospy.JsonTree.Rows.Quote.{quote}

-- a number by its text; one that is not finite becomes null
unfoldable pub number_text : Text → Text
unfolding text_eq
number_text n =
    if text_eq n (codes "Infinity") || text_eq n (codes "-Infinity") || text_eq n (codes "NaN")
    then codes "null"
    else n

abbrev pub indent : ℕ → Text
indent depth = replicate (2 * depth) b' '

-- a new line at a depth
abbrev pub line_at : ℕ → Text
line_at depth = b'\n' ∷ indent depth

-- `JSON.stringify(value, null, 2)`, at a depth
unfoldable mutual
  unfolding quote number_text

  pub pretty_at : ℕ → Value → Text
  pretty_at depth Value.null = codes "null"
  pretty_at depth (Value.bool true) = codes "true"
  pretty_at depth (Value.bool false) = codes "false"
  pretty_at depth (Value.num n) = number_text n
  pretty_at depth (Value.str s) = quote s
  pretty_at depth (Value.arr items) = pretty_array depth items
  pretty_at depth (Value.obj entries) = pretty_object depth entries

  pub pretty_array : ℕ → Items → Text
  pretty_array depth nil = codes "[]"
  pretty_array depth (cons v vs) =
      codes "["
      ++ line_at (suc depth)
      ++ pretty_at (suc depth) v
      ++ pretty_items (suc depth) vs
      ++ line_at depth
      ++ codes "]"

  pub pretty_items : ℕ → Items → Text
  pretty_items depth nil = []
  pretty_items depth (cons v vs) =
      codes "," ++ line_at depth ++ pretty_at depth v ++ pretty_items depth vs

  pub pretty_object : ℕ → Entries → Text
  pretty_object depth end = codes "{}"
  pretty_object depth (entry k v es) =
      codes "{"
      ++ line_at (suc depth)
      ++ quote k
      ++ codes ": "
      ++ pretty_at (suc depth) v
      ++ pretty_entries (suc depth) es
      ++ line_at depth
      ++ codes "}"

  pub pretty_entries : ℕ → Entries → Text
  pretty_entries depth end = []
  pretty_entries depth (entry k v es) =
      codes ","
      ++ line_at depth
      ++ quote k
      ++ codes ": "
      ++ pretty_at depth v
      ++ pretty_entries depth es

unfoldable pub pretty_text : Value → Text
unfolding pretty_at
pretty_text v = pretty_at 0 v

-- `JSON.stringify(value)`
unfoldable mutual
  unfolding quote number_text

  pub compact_text : Value → Text
  compact_text Value.null = codes "null"
  compact_text (Value.bool true) = codes "true"
  compact_text (Value.bool false) = codes "false"
  compact_text (Value.num n) = number_text n
  compact_text (Value.str s) = quote s
  compact_text (Value.arr nil) = codes "[]"
  compact_text (Value.arr (cons v vs)) =
      codes "[" ++ compact_text v ++ compact_items vs ++ codes "]"
  compact_text (Value.obj end) = codes "{}"
  compact_text (Value.obj (entry k v es)) =
      codes "{" ++ quote k ++ codes ":" ++ compact_text v ++ compact_entries es ++ codes "}"

  pub compact_items : Items → Text
  compact_items nil = []
  compact_items (cons v vs) = codes "," ++ compact_text v ++ compact_items vs

  pub compact_entries : Entries → Text
  compact_entries end = []
  compact_entries (entry k v es) =
      codes "," ++ quote k ++ codes ":" ++ compact_text v ++ compact_entries es
