-- ===== src/Shell/Selection.antt =====
-- What the moves of ui/src/components/app-shell.tsx select.
use protospy.Prelude.{
  ℕ, zero, suc, ◌+◌, ◌%◌, ◌≡◌, refl, sym, ap, ◌∙◌, ◌⊎◌, inl, inr, Bool, Option, none, some, List,
  [], ◌∷◌, Text, length, Option-cases, some_injective, arith,
}
use protospy.Runtime.{Runtime}
use protospy.JsMap.{get}
use protospy.Store.Types.{Exchange}
use protospy.Store.Labels.{IsLabelled, id_of_get}
use protospy.Store.State.{StoreState}
use protospy.Store.Selectors.{select_visible_ids}
use protospy.Shell.Moves.{
  Delta, get_elem?, index_of_id, select, select_found, move, step, offset, candidate_at,
  search_from, select_exchange, select_next, on_next_matching, on_next_in_trace, is_matching,
  is_in_trace,
}

-- The id stands in the list.
abbrev pub Has : ℕ → List ℕ → Type 0
Has id [] = ⊥
Has id (x ∷ ids) = (x ≡ id) ⊎ Has id ids

pub Has-get_elem? : (ids : List ℕ) (i id : ℕ) → get_elem? ids i ≡ some id → Has id ids
unfolding get_elem?
Has-get_elem? [] i id found = cc
Has-get_elem? (x ∷ ids) zero id found = inl (cc)
Has-get_elem? (x ∷ ids) (suc i) id found = inr (Has-get_elem? ids i id found)

-- The handlers that move the selection.
pub data Navigation : Type 0 where
  moved : Delta → Navigation
  stepped : Delta → Navigation
  to_matching : Exchange → Navigation
  to_trace : Exchange → Text → Navigation

abbrev pub navigate : Runtime → Navigation → StoreState → StoreState
navigate rt (moved delta) s = move rt delta s
navigate rt (stepped delta) s = step rt delta s
navigate rt (to_matching cur) s = on_next_matching rt cur s
navigate rt (to_trace cur trace_id) s = on_next_in_trace rt cur trace_id s

-- Nothing changes, or a visible id is selected and nothing else changes.
abbrev pub IsSelection : Runtime → StoreState → StoreState → Type 0
IsSelection rt s u = (u ≡ s) ⊎ ((id : ℕ) × Has id (select_visible_ids s) × (u ≡ select rt id s))

-- What the loop finds is the exchange of an id of the list.
module _ (wanted : Exchange → Bool) (exchanges : List (ℕ × Exchange)) where
  candidate_at_lem :
      (o : Option ℕ) (cand : Exchange)
      → candidate_at wanted exchanges o ≡ some cand
      → (id : ℕ) × (o ≡ some id) × (get id exchanges ≡ some cand)
  unfolding candidate_at
  candidate_at_lem none cand found = cc
  candidate_at_lem (some id) cand found = (id, refl, ground arith)

  pub search_from_miss :
      (ids : List ℕ) (start : Option ℕ) (left k : ℕ)
      → candidate_at wanted exchanges (get_elem? ids (offset start k % length ids)) ≡ none
      → search_from wanted exchanges ids start (suc left) k
        ≡ search_from wanted exchanges ids start left (k + 1)
  unfolding search_from
  search_from_miss ids start left k miss = rw (search_from, miss) refl

  pub search_from_hit :
      (ids : List ℕ) (start : Option ℕ) (left k : ℕ) (cand : Exchange)
      → candidate_at wanted exchanges (get_elem? ids (offset start k % length ids)) ≡ some cand
      → search_from wanted exchanges ids start (suc left) k ≡ some cand
  unfolding search_from
  search_from_hit ids start left k cand hit = rw (search_from, hit) refl

  search_from_lem :
      (ids : List ℕ) (start : Option ℕ) (left k : ℕ) (cand : Exchange)
      → search_from wanted exchanges ids start left k ≡ some cand
      → (id : ℕ) × Has id ids × (get id exchanges ≡ some cand)
  unfolding search_from
  search_from_lem ids start zero k cand found = cc
  search_from_lem ids start (suc left) k cand found =
      let place = get_elem? ids (offset start k % length ids) in
      elim (Option-cases (candidate_at wanted exchanges place)) [
        | inl miss ↦
            search_from_lem ids start left (k + 1) cand
              (sym (search_from_miss ids start left k miss) ∙ found)
        | inr (c, hit) ↦
            let (id, at_place, got) = candidate_at_lem place c hit in
            let same = some_injective (sym (search_from_hit ids start left k c hit) ∙ found) in
            (id, Has-get_elem? ids (offset start k % length ids) id at_place, got ∙ ap some same)
      ]

module _ (rt : Runtime) (s : StoreState) where
  select_found-IsSelection :
      (i : ℕ) → IsSelection rt s (select_found rt (get_elem? (select_visible_ids s) i) s)
  unfolding select_found
  select_found-IsSelection i = elim (Option-cases (get_elem? (select_visible_ids s) i)) [
    | inl gone ↦ inl (rw (gone, select_found) refl)
    | inr (id, found) ↦
        inr (id, Has-get_elem? (select_visible_ids s) i id found, rw (found, select_found) refl)
  ]

  select_next-IsSelection :
      (wanted : Exchange → Bool) (cur : Exchange)
      → IsLabelled s.table
      → IsSelection rt s (select_next rt wanted cur s)
  unfolding select_next select_exchange
  select_next-IsSelection wanted cur labelled =
      let exchanges = s.table.exchanges in
      let ids = select_visible_ids s in
      let search = search_from wanted exchanges ids (index_of_id cur.id ids) (length ids) 1 in
      elim (Option-cases search) [
        | inl gone ↦ inl (rw (select_next, gone, select_exchange) refl)
        | inr (cand, found) ↦
            let (id, visible, got) =
              search_from_lem wanted exchanges ids (index_of_id cur.id ids) (length ids) 1 cand
                found in
            let same = id_of_get id cand exchanges labelled got in
            inr (id, visible, rw (select_next, found, select_exchange, same) refl)
      ]

  -- A move of the selection, by the keys or in the inspector, changes nothing or selects an id of
  -- the visible list and changes nothing else, where every exchange of the table carries the id of
  -- its key.
  pub navigate-IsSelection :
      (n : Navigation) → IsLabelled s.table → IsSelection rt s (navigate rt n s)
  unfolding move step on_next_matching on_next_in_trace
  navigate-IsSelection (moved delta) labelled = select_found-IsSelection _
  navigate-IsSelection (stepped delta) labelled = select_found-IsSelection _
  navigate-IsSelection (to_matching cur) labelled =
      select_next-IsSelection (is_matching cur) cur labelled
  navigate-IsSelection (to_trace cur trace_id) labelled =
      select_next-IsSelection (is_in_trace trace_id) cur labelled
