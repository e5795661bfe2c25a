-- ===== src/JsonParse/Worker.antt =====
-- `buildJson` and `buildNdjson` of ui/src/body/json-parse.worker.ts; a response has no job id and
-- no times here.
use protospy.Prelude.{
  ℕ, zero, suc, Bool, true, false, Option, none, some, List, [], ◌∷◌, map, length, Text, codes,
  join,
}
use protospy.Wire.{Value}
use protospy.Runtime.{Runtime, Result, thrown, ok, ◌>>=◌}
use protospy.JsonTree.Model.{
  Node, Nodes, empty, more, build_json_tree, build_json_forest, mark_truncation_point, ancestor_ids,
}
use protospy.JsonTree.Rows.{FlatRow, flatten_tree, flatten_forest}
use protospy.JsonTree.Expand.{
  default_options, add_all, compute_default_expanded, compute_forest_default_expanded,
}
use protospy.JsonParse.Pretty.{pretty_text, compact_text}
use protospy.JsonParse.{ParseResult, NdjsonParseResult, parse_with_truncation, parse_ndjson}

-- the "ok" case of `OutMessage`
pub record OutMessage : Type 0 where
  pub parsed : Option Value
  pub documents : Option (List Value)
  pub pretty : Text
  pub rows : List FlatRow
  pub default_expanded_ids : List ℕ
  pub truncated : Bool

-- the tree, marked where the text was cut off, and the ids to expand
unfoldable pub marked_tree : Bool → Node → Node × List ℕ
unfolding mark_truncation_point ancestor_ids compute_default_expanded add_all
marked_tree false tree = (tree, compute_default_expanded tree default_options)
marked_tree true tree = (
  mark_truncation_point tree,
  add_all (ancestor_ids tree) (compute_default_expanded tree default_options),
)

unfoldable pub json_response : ParseResult → OutMessage
unfolding build_json_tree marked_tree flatten_tree
json_response p =
    let tree = marked_tree p.truncated (build_json_tree p.parsed) in
    record {
      parsed = some p.parsed;
      documents = none;
      pretty = p.pretty;
      rows = flatten_tree tree.0 tree.1 [];
      default_expanded_ids = tree.1;
      truncated = p.truncated;
    }

-- the root at an index with its mark, and the ids on the way to it
unfoldable pub mark_root : ℕ → Nodes → Nodes × List ℕ
unfolding mark_truncation_point ancestor_ids
mark_root i empty = (empty, [])
mark_root zero (more n ns) = (more (mark_truncation_point n) ns, ancestor_ids n)
mark_root (suc i) (more n ns) = let rest = mark_root i ns in (more n rest.0, rest.1)

unfoldable pub marked_forest : Option ℕ → Nodes → List ℕ → Nodes × List ℕ
unfolding mark_root add_all
marked_forest none roots expanded = (roots, expanded)
marked_forest (some i) roots expanded =
    let marked = mark_root i roots in (marked.0, add_all marked.1 expanded)

-- `truncatedDocIndex != null`
abbrev pub is_some : Option ℕ → Bool
is_some none = false
is_some (some i) = true

unfoldable pub ndjson_response : NdjsonParseResult → OutMessage
unfolding build_json_forest compute_forest_default_expanded marked_forest flatten_forest pretty_text
    compact_text join
ndjson_response r =
    let roots = build_json_forest r.documents in
    let sizes = map (λ doc. length (compact_text doc)) r.documents in
    let expanded = compute_forest_default_expanded roots default_options sizes in
    let forest = marked_forest r.truncated_doc_index roots expanded in
    record {
      parsed = none;
      documents = some r.documents;
      pretty = join (codes "\n\n") (map pretty_text r.documents);
      rows = flatten_forest forest.0 forest.1 [];
      default_expanded_ids = forest.1;
      truncated = is_some r.truncated_doc_index;
    }

-- the test for no documents
unfoldable pub some_documents : List Value → NdjsonParseResult → Result OutMessage
unfolding ndjson_response
some_documents [] r = thrown
some_documents (v ∷ vs) r = ok (ndjson_response r)

module _ (rt : Runtime) (best_effort : Text → Option Value) where
  unfoldable pub build_json : Text → Result OutMessage
  unfolding parse_with_truncation json_response
  build_json text = do p ← parse_with_truncation rt best_effort text; ok (json_response p)

  unfoldable pub build_ndjson : Text → Result OutMessage
  unfolding parse_ndjson some_documents
  build_ndjson text = let r = parse_ndjson rt best_effort text in some_documents r.documents r
