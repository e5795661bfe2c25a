-- ===== src/Tests/JsonParse.antt =====
-- Parsing JSON bodies at concrete inputs.
use protospy.Prelude.{◌≡◌, refl, true, none, some, [], ◌∷◌, codes, text_eq}
use protospy.Wire.{Value, end, entry}
use protospy.Runtime.{ok}
use protospy.JsonTree.Model.{build_json_tree}
use protospy.JsonTree.Marker.{fits_window, shows_marker}
use protospy.JsonParse.{recover, lines_of, parse_ndjson}
use protospy.JsonParse.Pretty.{pretty_text}
use protospy.JsonParse.Worker.{OutMessage, build_json}
use protospy.JsonParse.Documents.{with_recovered, parsed_lines, recovered_line, parse_ndjson_lem}
use protospy.JsonParse.Marked.{build_json_truncated}
use protospy.Tests.Samples.{strict_runtime, one_item, recovering}

pretty_text_runs :
    pretty_text (Value.obj (entry (codes "a") one_item end))
    ≡ codes "{\n  \"a\": [\n    null\n  ]\n}"
unfolding pretty_text
pretty_text_runs = refl

parse_ndjson_lem_example :
    parse_ndjson strict_runtime recovering (codes "null\n\n x\nnull \n[nu")
    ≡ with_recovered
        (parsed_lines strict_runtime recovering (lines_of (codes "null\n\n x\nnull \n[nu")))
        (recovered_line strict_runtime recovering (lines_of (codes "null\n\n x\nnull \n[nu")))
parse_ndjson_lem_example =
    parse_ndjson_lem strict_runtime recovering (codes "null\n\n x\nnull \n[nu")

parse_ndjson_runs :
    parse_ndjson strict_runtime recovering (codes "null\n\n x\nnull \n[nu")
    ≡ with_recovered (Value.null ∷ Value.null ∷ []) (some one_item)
unfolding parse_ndjson text_eq
parse_ndjson_runs = refl

not_taken : strict_runtime.json_parse (codes "[nu") ≡ none
unfolding text_eq
not_taken = refl

item_recovered : recover strict_runtime recovering (codes "[nu") ≡ some one_item
unfolding recover
item_recovered = refl

item_fits : fits_window (build_json_tree one_item) ≡ true
unfolding fits_window build_json_tree
item_fits = refl

build_json_truncated_example :
    (out : OutMessage) × (build_json strict_runtime recovering (codes "[nu") ≡ ok out)
    × (out.truncated ≡ true)
    × (out.parsed ≡ some one_item)
    × (shows_marker out.rows ≡ true)
build_json_truncated_example =
    build_json_truncated strict_runtime recovering (codes "[nu") one_item not_taken item_recovered
      item_fits
