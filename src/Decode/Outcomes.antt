-- ===== src/Decode/Outcomes.antt =====
-- `DecodeResult` of ui/src/body/decode.ts and the results that `decodeBody` returns.
use protospy.Prelude.{ℕ, Bool, Option, none, some, List, Text}
use protospy.Wire.{Value}
use protospy.Runtime.{Result, thrown, ok}
use protospy.Body.ViewModes.{ContentKind, json, ndjson}
use protospy.JsonTree.Rows.{FlatRow}
use protospy.JsonParse.Worker.{OutMessage}
use protospy.Markup.{MarkupKind, MarkupLine, MarkupFormatResult}

pub record DecodeResult : Type 0 where
  pub kind : ContentKind
  pub text_available : Bool
  pub text : Option Text
  pub media_type : Text
  pub wire_bytes : ℕ
  pub decoded_bytes : Option ℕ
  pub content_encoding : Option Text
  pub parsed : Option Value
  pub documents : Option (List Value)
  pub initial_rows : Option (List FlatRow)
  pub initial_expanded : Option (List ℕ)
  pub truncated : Option Bool
  pub lines : Option (List MarkupLine)
  pub raw_text : Text
  pub bytes : List ℕ

-- the variables behind step 3
pub record Decoded : Type 0 where
  pub media_type : Text
  pub wire_bytes : ℕ
  pub content_type : Option Text
  pub content_encoding : Option Text
  pub bytes : List ℕ
  pub decoded_bytes : Option ℕ
  pub text : Text
  pub text_available : Bool

-- the properties that all results share
unfoldable pub plain_result : Decoded → ContentKind → DecodeResult
plain_result d kind = record {
  kind = kind;
  text_available = d.text_available;
  text = none;
  media_type = d.media_type;
  wire_bytes = d.wire_bytes;
  decoded_bytes = d.decoded_bytes;
  content_encoding = d.content_encoding;
  parsed = none;
  documents = none;
  initial_rows = none;
  initial_expanded = none;
  truncated = none;
  lines = none;
  raw_text = d.text;
  bytes = d.bytes;
}

-- the results of steps 7 and 10
unfoldable pub text_result : Decoded → DecodeResult
unfolding plain_result
text_result d = record (plain_result d ContentKind.text) { text = some d.text }

-- `parsed ?? undefined`
unfoldable pub not_null : Option Value → Option Value
not_null none = none
not_null (some Value.null) = none
not_null (some (Value.bool b)) = some (Value.bool b)
not_null (some (Value.num n)) = some (Value.num n)
not_null (some (Value.str s)) = some (Value.str s)
not_null (some (Value.arr items)) = some (Value.arr items)
not_null (some (Value.obj entries)) = some (Value.obj entries)

unfoldable pub ndjson_result : Decoded → OutMessage → DecodeResult
unfolding plain_result
ndjson_result d m = record (plain_result d ndjson) {
  text = some m.pretty;
  documents = m.documents;
  initial_rows = some m.rows;
  initial_expanded = some m.default_expanded_ids;
  truncated = some m.truncated;
}

unfoldable pub json_result : Decoded → OutMessage → DecodeResult
unfolding plain_result not_null
json_result d m = record (plain_result d json) {
  text = some m.pretty;
  parsed = not_null m.parsed;
  initial_rows = some m.rows;
  initial_expanded = some m.default_expanded_ids;
  truncated = some m.truncated;
}

abbrev pub kind_of_markup : MarkupKind → ContentKind
kind_of_markup MarkupKind.html = ContentKind.html
kind_of_markup MarkupKind.xml = ContentKind.xml

-- both results of step 6
unfoldable pub markup_result : Decoded → MarkupKind → Result MarkupFormatResult → DecodeResult
unfolding plain_result
markup_result d kind thrown = record (plain_result d (kind_of_markup kind)) { text = some d.text }
markup_result d kind (ok r) = record (plain_result d (kind_of_markup kind)) {
  text = some r.formatted_text;
  lines = some r.lines;
}
