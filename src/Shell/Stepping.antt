-- ===== src/Shell/Stepping.antt =====
-- Pressing the key for the next row of ui/src/components/app-shell.tsx again and again.
use protospy.Prelude.{
  ℕ, zero, suc, ◌<◌, ◌≤◌, ◌≡◌, ◌≢◌, refl, ap, ◌∙◌, none, some, false, List, [], ◌∷◌, All, length,
  arith, inl, inr, ◌==◌, codes, text_eq,
}
use protospy.Runtime.{Runtime}
use protospy.Store.Consistency.{Distinct}
use protospy.Store.State.{StoreState, dispatch}
use protospy.Store.Selectors.{select_visible_ids, select_visible_exchanges}
use protospy.Shell.Moves.{
  forward, get_elem?, next_index, clamped, selected_index, index_of_id, select, select_found, move,
}
use protospy.Shell.Keys.{KeyPress, is_palette_key, on_plain_key, on_key}
use protospy.Shell.Selection.{Has, Has-get_elem?}

Has-All : (ids : List ℕ) (x id : ℕ) → All (λ y. y ≢ x) ids → Has id ids → id ≢ x
Has-All (y ∷ ids) x id (ne, later) (inl same) = λ e. ne (same ∙ e)
Has-All (y ∷ ids) x id (ne, later) (inr has) = Has-All ids x id later has
Has-All [] x id h has = elim has [ ]

not_equal : (x id : ℕ) → id ≢ x → (x == id) ≡ false
not_equal x id ne = ground arith

-- In a list without repetition the index of what stands at `i` is `i`.
index_of_id-get_elem? :
    (ids : List ℕ) (i id : ℕ)
    → Distinct ids
    → get_elem? ids i ≡ some id
    → index_of_id id ids ≡ some i
unfolding get_elem? index_of_id
index_of_id-get_elem? [] i id d found = cc
index_of_id-get_elem? (x ∷ ids) zero id d found = ground arith
index_of_id-get_elem? (x ∷ ids) (suc i) id d found =
    let ne = Has-All ids x id d.0 (Has-get_elem? ids i id found) in
    let ih = index_of_id-get_elem? ids i id d.1 found in rw (not_equal x id ne, ih) refl

get_elem?_below : (ids : List ℕ) (i : ℕ) → i < length ids → (id : ℕ) × (get_elem? ids i ≡ some id)
unfolding get_elem?
get_elem?_below [] i below = absurd (omega arith)
get_elem?_below (x ∷ ids) zero below = (x, refl)
get_elem?_below (x ∷ ids) (suc i) below = get_elem?_below ids i (omega arith)

index_of_Has :
    (ids : List ℕ) (id : ℕ) → Has id ids → (i : ℕ) × (i < length ids) × (get_elem? ids i ≡ some id)
unfolding get_elem?
index_of_Has [] id has = elim has [ ]
index_of_Has (x ∷ ids) id (inl same) = (0, omega arith, ap some same)
index_of_Has (x ∷ ids) id (inr has) =
    let (i, below, found) = index_of_Has ids id has in (suc i, omega arith, found)

-- the key "j" alone, where the target takes no text
abbrev pub key_j : KeyPress
key_j = record { key = codes "j"; command = false; typing = false }

module _ (rt : Runtime) where
  -- The state after `onKey` has been called a number of times with the key "j".
  unfoldable pub presses : ℕ → StoreState → StoreState
  presses zero s = s
  presses (suc n) s = on_key rt key_j (presses n s)

  -- Where neither dialog is open the key "j" is the move to the next row.
  on_key_j :
      (s : StoreState)
      → s.cmd_k_open ≡ false
      → s.help_open ≡ false
      → on_key rt key_j s ≡ move rt forward s
  unfolding on_key is_palette_key on_plain_key text_eq
  on_key_j s no_palette no_help = rw (on_key, no_palette, no_help) refl

  on_key_j-select :
      (s : StoreState) (id : ℕ)
      → s.cmd_k_open ≡ false
      → s.help_open ≡ false
      → on_key rt key_j (select rt id s) ≡ move rt forward (select rt id s)
  unfolding dispatch
  on_key_j-select s id no_palette no_help = on_key_j (select rt id s) no_palette no_help

  select_visible_ids-select :
      (id : ℕ) (s : StoreState) → select_visible_ids (select rt id s) ≡ select_visible_ids s
  unfolding select_visible_ids select_visible_exchanges dispatch
  select_visible_ids-select id s = refl

  move_found :
      (s : StoreState) (i id : ℕ)
      → next_index forward
          (selected_index s.selected_id (select_visible_ids s))
          (select_visible_ids s)
        ≡ i
      → get_elem? (select_visible_ids s) i ≡ some id
      → move rt forward s ≡ select rt id s
  unfolding move select_found
  move_found s i id index found = rw (move, index, found, select_found) refl

  index_at_start :
      (s : StoreState)
      → s.selected_id ≡ none
      → next_index forward
          (selected_index s.selected_id (select_visible_ids s))
          (select_visible_ids s)
        ≡ 0
  unfolding next_index selected_index
  index_at_start s unselected = rw (unselected) refl

  index_behind :
      (ids : List ℕ) (i id : ℕ)
      → Distinct ids
      → get_elem? ids i ≡ some id
      → suc i < length ids
      → next_index forward (selected_index (some id) ids) ids ≡ suc i
  unfolding next_index selected_index clamped
  index_behind ids i id distinct found below =
      rw (index_of_id-get_elem? ids i id distinct found) (omega arith)

  move_behind :
      (s : StoreState) (i before id : ℕ)
      → Distinct (select_visible_ids s)
      → get_elem? (select_visible_ids s) i ≡ some before
      → get_elem? (select_visible_ids s) (suc i) ≡ some id
      → suc i < length (select_visible_ids s)
      → move rt forward (select rt before s) ≡ select rt id s
  unfolding select_visible_ids select_visible_exchanges dispatch
  move_behind s i before id distinct at_i found below =
      move_found (select rt before s) (suc i) id
        (index_behind (select_visible_ids s) i before distinct at_i below) found

  presses-select :
      (s : StoreState)
      → Distinct (select_visible_ids s)
      → s.selected_id ≡ none
      → s.cmd_k_open ≡ false
      → s.help_open ≡ false
      → (i id : ℕ) → get_elem? (select_visible_ids s) i ≡ some id
      → i < length (select_visible_ids s)
      → presses (suc i) s ≡ select rt id s
  unfolding presses
  presses-select s distinct unselected no_palette no_help zero id found below =
      on_key_j s no_palette no_help ∙ move_found s 0 id (index_at_start s unselected) found
  presses-select s distinct unselected no_palette no_help (suc i) id found below =
      let ids = select_visible_ids s in
      let (before, at_i) = get_elem?_below ids i (omega arith) in
      let ih =
        presses-select s distinct unselected no_palette no_help i before at_i (omega arith) in
      ap (on_key rt key_j) ih
      ∙ on_key_j-select s before no_palette no_help
      ∙ move_behind s i before id distinct at_i found below

  -- Where nothing is selected, neither the palette nor the help is open and no id is visible twice,
  -- pressing "j" often enough outside of text fields, at most as often as there are visible ids,
  -- selects any visible id and changes nothing else.
  pub presses_reach :
      (s : StoreState) (id : ℕ)
      → Distinct (select_visible_ids s)
      → s.selected_id ≡ none
      → s.cmd_k_open ≡ false
      → s.help_open ≡ false
      → Has id (select_visible_ids s)
      → (n : ℕ) × (n ≤ length (select_visible_ids s)) × (presses n s ≡ select rt id s)
  presses_reach s id distinct unselected no_palette no_help visible =
      let (i, below, found) = index_of_Has (select_visible_ids s) id visible in
      (suc i, omega arith, presses-select s distinct unselected no_palette no_help i id found below)
