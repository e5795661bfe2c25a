-- ===== src/JsonParse/Marked.antt =====
-- The response of ui/src/body/json-parse.worker.ts to a body that was cut off.
use protospy.Prelude.{
  ap, ◌∙◌, ◌||◌, All-weaken, ℕ, ◌≡◌, refl, true, Option, none, some, List, [], ◌∷◌, All, Text,
  arith,
}
use protospy.Wire.{Value}
use protospy.Runtime.{Runtime, ok}
use protospy.JsonTree.Model.{build_json_tree, ancestor_ids}
use protospy.JsonTree.Rows.{has}
use protospy.JsonTree.Expand.{default_options, add_all, compute_default_expanded}
use protospy.JsonTree.Expansion.{has-add_all}
use protospy.JsonTree.Marker.{
  fits_window, shows_marker, AreExpanded, flatten_tree-mark_truncation_point,
}
use protospy.JsonParse.{ParseResult, parse_with_truncation, recover}
use protospy.JsonParse.Pretty.{pretty_text}
use protospy.JsonParse.Worker.{OutMessage, json_response, marked_tree, build_json}

has_first : (id : ℕ) (ids : List ℕ) → has (id ∷ ids) id ≡ true
unfolding has
has_first id ids = ground arith

has_later : (id other : ℕ) (ids : List ℕ) → has ids id ≡ true → has (other ∷ ids) id ≡ true
unfolding has
has_later id other ids h = ground arith

All-itself : (ids : List ℕ) → All (λ id. has ids id ≡ true) ids
All-itself [] = tt
All-itself (id ∷ ids) =
    (has_first id ids, All-weaken (λ x h. has_later x id ids h) ids (All-itself ids))

has_added :
    (ids expanded : List ℕ) (id : ℕ) → has ids id ≡ true → has (add_all ids expanded) id ≡ true
has_added ids expanded id h = has-add_all ids expanded id ∙ ap (λ b. b || has expanded id) h

-- Ids that are added are expanded.
add_all-AreExpanded : (ids expanded : List ℕ) → AreExpanded ids (add_all ids expanded)
add_all-AreExpanded ids expanded =
    All-weaken {P = λ id. has ids id ≡ true} {Q = λ id. has (add_all ids expanded) id ≡ true}
      (λ id h. has_added ids expanded id h) ids (All-itself ids)

json_response_marked :
    (p : ParseResult)
    → p.truncated ≡ true
    → fits_window (build_json_tree p.parsed) ≡ true
    → shows_marker (json_response p).rows ≡ true
unfolding json_response marked_tree
json_response_marked p cut fits =
    let tree = build_json_tree p.parsed in
    let expanded = compute_default_expanded tree default_options in
    rw (cut, marked_tree)
      (flatten_tree-mark_truncation_point tree (add_all (ancestor_ids tree) expanded) [] fits
        (add_all-AreExpanded (ancestor_ids tree) expanded))

abbrev recovered_parse : Value → ParseResult
recovered_parse v = record { parsed = v; pretty = pretty_text v; truncated = true }

parse_recovered :
    (rt : Runtime) (best_effort : Text → Option Value) (text : Text) (v : Value)
    → rt.json_parse text ≡ none
    → recover rt best_effort text ≡ some v
    → parse_with_truncation rt best_effort text ≡ ok (recovered_parse v)
unfolding parse_with_truncation
parse_recovered rt best_effort text v bad found = rw (bad, parse_with_truncation, found) refl

build_json_of :
    (rt : Runtime) (best_effort : Text → Option Value) (text : Text) (p : ParseResult)
    → parse_with_truncation rt best_effort text ≡ ok p
    → build_json rt best_effort text ≡ ok (json_response p)
unfolding build_json
build_json_of rt best_effort text p h = rw h refl

-- Where `JSON.parse` does not take a text and a value is recovered of which no container on the
-- way to the last node has more than 100 children, `buildJson` returns a response that is flagged
-- as truncated and has the marked node among its first rows.
pub build_json_truncated :
    (rt : Runtime) (best_effort : Text → Option Value) (text : Text) (v : Value)
    → rt.json_parse text ≡ none
    → recover rt best_effort text ≡ some v
    → fits_window (build_json_tree v) ≡ true
    → (out : OutMessage) × (build_json rt best_effort text ≡ ok out)
      × (out.truncated ≡ true)
      × (out.parsed ≡ some v)
      × (shows_marker out.rows ≡ true)
unfolding json_response
build_json_truncated rt best_effort text v bad found fits =
    let p = recovered_parse v in
    (
      json_response p,
      build_json_of rt best_effort text p (parse_recovered rt best_effort text v bad found),
      refl,
      refl,
      json_response_marked p refl fits,
    )
