-- ===== src/Viewer/Agreement.antt =====
-- The rows of the viewer (ui/src/components/json-tree/json-tree-viewer.tsx) and those of the worker
-- (ui/src/body/json-parse.worker.ts).
use protospy.Prelude.{
  ℕ, zero, suc, ◌≡◌, refl, sym, ap, ◌∙◌, Option, none, some, List, [], ◌∷◌, ◌++◌, Text, length,
  length-append, arith, some_injective, subst,
}
use protospy.Wire.{Value}
use protospy.Runtime.{Runtime, ok}
use protospy.JsonTree.Model.{
  Nodes, empty, more, count, build_json_forest, build_forest_from, build_node, root_place,
}
use protospy.JsonTree.Rows.{flatten_forest}
use protospy.JsonParse.{parse_ndjson, lines_of}
use protospy.JsonParse.Documents.{with_recovered, parsed_lines, recovered_line, parse_ndjson_lem}
use protospy.JsonParse.Worker.{
  OutMessage, mark_root, marked_forest, is_some, ndjson_response, build_ndjson,
}
use protospy.JsonParse.Responses.{some_documents_lem}
use protospy.Viewer.Forest.{many, mark_last_root, roots_of, build_forest}

count-build_forest_from :
    (vs : List Value) (next : ℕ) → count (build_forest_from vs next) ≡ length vs
unfolding build_forest_from count
count-build_forest_from [] next = refl
count-build_forest_from (v ∷ vs) next =
    ap suc (count-build_forest_from vs (build_node v root_place next).1)

-- The root at the last index is the last root.
mark_root-last :
    (i : ℕ) (roots : Nodes)
    → count roots ≡ suc i
    → mark_root i roots ≡ ((mark_last_root roots).roots, (mark_last_root roots).expand_ancestors)
unfolding mark_root mark_last_root count
mark_root-last i empty same = absurd (omega arith)
mark_root-last zero (more n empty) same = refl
mark_root-last (suc i) (more n empty) same = absurd (omega arith)
mark_root-last zero (more n (more m ns)) same = absurd (omega arith)
mark_root-last (suc i) (more n (more m ns)) same =
    ap (λ rest. (more n rest.0, rest.1)) (mark_root-last i (more m ns) (omega arith))

length_one_more : (docs : List Value) (v : Value) → length (docs ++ v ∷ []) ≡ suc (length docs)
length_one_more docs v = omega (arith, length-append docs (v ∷ []))

-- The forest of the worker is the one that the viewer builds.
marked_forest-build_forest :
    (docs : List Value) (recovered : Option Value) (expanded : List ℕ)
    → let r = with_recovered docs recovered in
      (marked_forest r.truncated_doc_index (build_json_forest r.documents) expanded).0
      ≡ (build_forest (many r.documents) (is_some r.truncated_doc_index)).roots
unfolding marked_forest build_forest roots_of build_json_forest
marked_forest-build_forest docs none expanded = refl
marked_forest-build_forest docs (some v) expanded =
    ap (λ marked. marked.0)
      (mark_root-last (length docs) (build_json_forest (docs ++ v ∷ []))
        (count-build_forest_from (docs ++ v ∷ []) 0 ∙ length_one_more docs v))

module _ (rt : Runtime) (best_effort : Text → Option Value) (text : Text) where
  parse_ndjson_forest :
      (expanded : List ℕ)
      → let r = parse_ndjson rt best_effort text in
        (marked_forest r.truncated_doc_index (build_json_forest r.documents) expanded).0
        ≡ (build_forest (many r.documents) (is_some r.truncated_doc_index)).roots
  parse_ndjson_forest expanded = rw (parse_ndjson_lem rt best_effort text) (
      marked_forest-build_forest (parsed_lines rt best_effort (lines_of text))
        (recovered_line rt best_effort (lines_of text)) expanded)

  ndjson_response-rows :
      let r = parse_ndjson rt best_effort text in
      let m = ndjson_response r in
      m.rows
      ≡ flatten_forest (build_forest (many r.documents) m.truncated).roots m.default_expanded_ids []
  unfolding ndjson_response
  ndjson_response-rows =
      let m = ndjson_response (parse_ndjson rt best_effort text) in
      ap (λ roots. flatten_forest roots m.default_expanded_ids []) (parse_ndjson_forest _)

  -- The rows of an answer of the worker are those that the viewer makes of the documents.
  pub build_ndjson-rows :
      (m : OutMessage) (docs : List Value)
      → build_ndjson rt best_effort text ≡ ok m
      → m.documents ≡ some docs
      → m.rows
        ≡ flatten_forest (build_forest (many docs) m.truncated).roots m.default_expanded_ids []
  unfolding build_ndjson
  build_ndjson-rows m docs answered documents =
      let r = parse_ndjson rt best_effort text in
      let (first, others, split, answer) = some_documents_lem r.documents r m answered in
      let same = some_injective (ap (λ (a : OutMessage). a.documents) (sym answer) ∙ documents) in
      subst
        (λ a.
          OutMessage.rows a
          ≡ flatten_forest (build_forest (many docs) (OutMessage.truncated a)).roots
              (OutMessage.default_expanded_ids a) [])
        (sym answer)
        (ndjson_response-rows
          ∙ ap
              (λ ds.
                let m = ndjson_response r in
                flatten_forest (build_forest (many ds) m.truncated).roots m.default_expanded_ids [])
              same)
