-- ===== src/Viewer/Reached.antt =====
-- The states that the viewer of ui/src/components/json-tree/json-tree-viewer.tsx reaches, and their
-- rows.
use protospy.Prelude.{
  ℕ, ◌≡◌, refl, sym, ap, ◌⊎◌, inl, inr, true, false, Option, none, some, List, [], Text, Bool-cases,
  subst,
}
use protospy.Wire.{Value}
use protospy.Runtime.{Runtime, ok}
use protospy.JsonTree.Rows.{has, flatten_forest}
use protospy.JsonParse.Worker.{OutMessage, build_ndjson}
use protospy.Viewer.Forest.{many, build_forest}
use protospy.Viewer.State.{
  ViewerProps, ViewerState, mount, toggle, show_more, show_all, ensure_forest, with_forest,
  viewer_rows, forest_rows,
}
use protospy.Viewer.Agreement.{build_ndjson-rows}

-- What a click does.
pub data Click : Type 0 where
  toggled : ℕ → Click
  shown_more : (id total : ℕ) → Click
  shown_all : (id total : ℕ) → Click

abbrev pub click : ViewerProps → Click → ViewerState → ViewerState
click p (toggled id) s = toggle p id s
click p (shown_more id total) s = show_more p id total s
click p (shown_all id total) s = show_all p id total s

-- The states that clicks lead to from the first one.
pub data Reached (p : ViewerProps) : ViewerState → Type 0 where
  mounted : {s : ViewerState} → s ≡ mount p → Reached p s
  clicked : {s u : ViewerState} → Reached p s → (c : Click) → u ≡ click p c s → Reached p u

module _ (p : ViewerProps) where
  -- The forest is built of the input.
  record IsReady (s : ViewerState) : Type 0 where
    ready : s.tree_ready ≡ true
    built : s.forest ≡ some (build_forest p.input p.truncated).roots

  -- Nothing is built yet.
  record IsWaiting (s : ViewerState) : Type 0 where
    waiting : s.tree_ready ≡ false
    unbuilt : s.forest ≡ none
    unlimited : s.limits ≡ []

  ensure_forest-built :
      (s : ViewerState)
      → IsReady s ⊎ IsWaiting s
      → ensure_forest p s ≡ (build_forest p.input p.truncated).roots
  unfolding ensure_forest
  ensure_forest-built s (inl done) = rw (done.built) refl
  ensure_forest-built s (inr not_yet) = rw (not_yet.unbuilt) refl

  with_forest-IsReady : (s : ViewerState) → IsReady s ⊎ IsWaiting s → IsReady (with_forest p s)
  unfolding with_forest
  with_forest-IsReady s h = record { ready = refl; built = ap some (ensure_forest-built s h) }

  toggle-IsReady : (id : ℕ) (s : ViewerState) → IsReady s ⊎ IsWaiting s → IsReady (toggle p id s)
  unfolding toggle with_forest
  toggle-IsReady id s h = elim (Bool-cases (has s.expanded id)) [
    | inl shown ↦
        rw (shown, toggle) (record { ready = refl; built = ap some (ensure_forest-built s h) })
    | inr closed ↦
        rw (closed, toggle) (record { ready = refl; built = ap some (ensure_forest-built s h) })
  ]

  click-IsReady : (c : Click) (s : ViewerState) → IsReady s ⊎ IsWaiting s → IsReady (click p c s)
  unfolding show_more show_all with_forest
  click-IsReady (toggled id) s h = toggle-IsReady id s h
  click-IsReady (shown_more id total) s h = record {
    ready = refl;
    built = ap some (ensure_forest-built s h);
  }
  click-IsReady (shown_all id total) s h = record {
    ready = refl;
    built = ap some (ensure_forest-built s h);
  }

  IsReady-rows :
      (s : ViewerState)
      → IsReady s
      → viewer_rows p s
        ≡ flatten_forest (build_forest p.input p.truncated).roots s.expanded s.limits
  unfolding viewer_rows forest_rows
  IsReady-rows s done = rw (done.ready, done.built) refl

-- The properties of the viewer for an answer to documents.
abbrev pub ndjson_props : List Value → OutMessage → ViewerProps
ndjson_props docs m = record {
  input = many docs;
  initial_rows = some m.rows;
  initial_expanded = some m.default_expanded_ids;
  truncated = m.truncated;
}

module _ (docs : List Value) (m : OutMessage) where
  mount-IsWaiting : IsWaiting (ndjson_props docs m) (mount (ndjson_props docs m))
  unfolding mount
  mount-IsWaiting = record { waiting = refl; unbuilt = refl; unlimited = refl }

  Reached-IsReady :
      {s : ViewerState}
      → Reached (ndjson_props docs m) s
      → IsReady (ndjson_props docs m) s ⊎ (s ≡ mount (ndjson_props docs m))
  Reached-IsReady (mounted start) = inr start
  Reached-IsReady (clicked {s = s} earlier c same) =
      let p = ndjson_props docs m in
      let before : IsReady p s ⊎ IsWaiting p s = elim (Reached-IsReady earlier) [
        | inl done ↦ inl done
        | inr start ↦ inr (subst (IsWaiting p) (sym start) mount-IsWaiting)
      ] in
      inl (subst (IsReady p) (sym same) (click-IsReady p c s before))

  mount-rows :
      m.rows ≡ flatten_forest (build_forest (many docs) m.truncated).roots m.default_expanded_ids []
      → let s = mount (ndjson_props docs m) in
        viewer_rows (ndjson_props docs m) s
        ≡ flatten_forest (build_forest (many docs) m.truncated).roots s.expanded s.limits
  unfolding viewer_rows mount
  mount-rows agree = agree

module _ (rt : Runtime) (best_effort : Text → Option Value) (text : Text) where
  -- Of the documents of a body, parsed by the worker, the viewer shows at all times the rows of
  -- their forest, marked where the body was cut off, for the nodes that are expanded and the limits
  -- that were raised: before the first click, when they are the worker's rows, and after any
  -- clicks.
  pub Reached-rows :
      (m : OutMessage) (docs : List Value) (s : ViewerState)
      → build_ndjson rt best_effort text ≡ ok m
      → m.documents ≡ some docs
      → Reached (ndjson_props docs m) s
      → viewer_rows (ndjson_props docs m) s
        ≡ flatten_forest (build_forest (many docs) m.truncated).roots s.expanded s.limits
  Reached-rows m docs s answered documents reached =
      let p = ndjson_props docs m in
      elim (Reached-IsReady docs m reached) [
        | inl done ↦ IsReady-rows p s done
        | inr start ↦
            subst
              (λ u.
                viewer_rows p u
                ≡ flatten_forest (build_forest (many docs) m.truncated).roots
                    (ViewerState.expanded u) (ViewerState.limits u))
              (sym start)
              (mount-rows docs m (build_ndjson-rows rt best_effort text m docs answered documents))
      ]
