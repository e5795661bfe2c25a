-- ===== src/Store/Reachable.antt =====
-- The states that the store of ui/src/state/store.ts can reach, by any sequence of actions.
use protospy.Prelude.{
  ℕ, ◌≤◌, ◌≡◌, refl, ◌∙◌, ◌⊎◌, inl, inr, Option, none, some, List, [], ◌∷◌, length, arith,
  Option-cases,
}
use protospy.Wire.{Direction, EventMessage}
use protospy.Runtime.{Runtime, Result, ok, thrown}
use protospy.Store.Types.{BodyState, Exchange}
use protospy.JsMap.{get, set, get-set, keys-set_old}
use protospy.Store.Reducer.{Table, exchange_bytes, wire_bytes_or_zero, apply}
use protospy.Store.Consistency.{IsConsistent}
use protospy.Store.Evict.{max_exchanges, max_payload_bytes, total_bytes, evict}
use protospy.Store.Frame.{apply-IsConsistent}
use protospy.Store.Eviction.{evict-IsConsistent, evict_within_caps}
use protospy.Store.Labels.{IsLabelled, All-set, id_of_get, apply-IsLabelled, evict-IsLabelled}
use protospy.Store.State.{
  StoreState, Action, apply_event, set_body_decoded_bytes, initial_state, after_event, decoded_body,
  decoded_exchange, set_decoded, dispatch,
}

-- The caps hold: 1024 exchanges, and 512 MB of bodies unless a single exchange is left.
abbrev pub IsWithinCaps : Table → Type 0
IsWithinCaps t =
    (length t.ids ≤ max_exchanges)
    × ((total_bytes t.exchanges t.ids ≤ max_payload_bytes) ⊎ (length t.ids ≤ 1))

pub record IsSound (t : Table) : Type 0 where
  pub consistent : IsConsistent t
  pub labelled : IsLabelled t
  pub capped : IsWithinCaps t

-- `Reachable rt s` holds of the states that actions lead to.
pub data Reachable (rt : Runtime) : StoreState → Type 0 where
  start : {s : StoreState} → s ≡ initial_state → Reachable rt s
  act : {s u : StoreState} → Reachable rt s → (a : Action) → u ≡ dispatch rt a s → Reachable rt u

decoded_body_wire :
    (n : ℕ) (body : Option BodyState) (body' : BodyState)
    → decoded_body n body ≡ some body'
    → wire_bytes_or_zero (some body') ≡ wire_bytes_or_zero body
unfolding decoded_body wire_bytes_or_zero
decoded_body_wire n none body' h = ground arith
decoded_body_wire n (some body) body' h = ground arith

-- Noting a decoded size changes neither the id nor the wire bytes of an exchange.
decoded_exchange_lem :
    (d : Direction) (n : ℕ) (ex ex' : Exchange)
    → decoded_exchange d n ex ≡ some ex'
    → (ex'.id ≡ ex.id) × (exchange_bytes ex' ≡ exchange_bytes ex)
unfolding decoded_exchange exchange_bytes
decoded_exchange_lem Direction.request n ex ex' h =
    elim (Option-cases (decoded_body n ex.request_body)) [
      | inl same ↦ absurd (ground arith)
      | inr (body, e) ↦ ground (arith, decoded_body_wire n ex.request_body body e)
    ]
decoded_exchange_lem Direction.response n ex ex' h =
    elim (Option-cases (decoded_body n ex.response_body)) [
      | inl same ↦ absurd (ground arith)
      | inr (body, e) ↦ ground (arith, decoded_body_wire n ex.response_body body e)
    ]

total_bytes-set :
    (k : ℕ) (ex ex' : Exchange) (m : List (ℕ × Exchange)) (ids : List ℕ)
    → get k m ≡ some ex
    → exchange_bytes ex' ≡ exchange_bytes ex
    → total_bytes (set k ex' m) ids ≡ total_bytes m ids
unfolding total_bytes
total_bytes-set k ex ex' m [] h e = refl
total_bytes-set k ex ex' m (j ∷ ids) h e =
    ground (arith, get-set k j ex' m, total_bytes-set k ex ex' m ids h e)

set_decoded-IsSound :
    (id : ℕ) (d : Direction) (n : ℕ) (t : Table) → IsSound t → IsSound (set_decoded id d n t)
unfolding set_decoded
set_decoded-IsSound id d n t s = elim (Option-cases (get id t.exchanges)) [
  | inl gone ↦ rw (gone, set_decoded) s
  | inr (ex, found) ↦ elim (Option-cases (decoded_exchange d n ex)) [
    | inl same ↦ rw (found, same, set_decoded) s
    | inr (ex', changed) ↦
        let (id_same, bytes_same) = decoded_exchange_lem d n ex ex' changed in
        rw (found, changed, set_decoded)
          (record {
            consistent = record {
              same_ids = keys-set_old id ex' ex t.exchanges found ∙ s.consistent.same_ids;
              distinct = s.consistent.distinct;
            };
            labelled =
                All-set id ex' t.exchanges (id_same ∙ id_of_get id ex t.exchanges s.labelled found)
                  s.labelled;
            capped = rw (total_bytes-set id ex ex' t.exchanges t.ids found bytes_same) s.capped;
          })
  ]
]

after_event-IsSound :
    (rt : Runtime) (msg : EventMessage) (s : StoreState)
    → IsSound s.table
    → IsSound (after_event rt msg s).table
unfolding after_event
after_event-IsSound rt msg s h = cases (apply rt s.table msg) refl
  where
    cases :
        (r : Result Table)
        → apply rt s.table msg ≡ r
        → IsSound
            (elim r as (λ _. StoreState) [
              | thrown ↦ s
              | ok t ↦ record s { table = evict t s.selected_id }
            ]).table
    cases thrown e = h
    cases (ok t) e =
        let c = apply-IsConsistent rt s.table msg e h.consistent in
        record {
          consistent = evict-IsConsistent t s.selected_id c;
          labelled =
              evict-IsLabelled t s.selected_id (apply-IsLabelled rt s.table msg e h.labelled);
          capped = evict_within_caps t s.selected_id c;
        }

-- Every action keeps the invariant of the table.
dispatch-IsSound :
    (rt : Runtime) (a : Action) (s : StoreState) → IsSound s.table → IsSound (dispatch rt a s).table
unfolding dispatch
dispatch-IsSound rt (apply_event msg) s h = after_event-IsSound rt msg s h
dispatch-IsSound rt (set_body_decoded_bytes id d n) s h = set_decoded-IsSound id d n s.table h
dispatch-IsSound rt _ s h = h

initial-IsSound : IsSound initial_state.table
unfolding initial_state total_bytes
initial-IsSound = record {
  consistent = record { same_ids = refl; distinct = tt };
  labelled = tt;
  capped = (omega arith, inl (omega arith));
}

-- In every state that the store can reach, the map and the array of ids agree, every exchange
-- carries the id that it is stored under, and the caps on count and bytes hold.
pub Reachable-IsSound : (rt : Runtime) (s : StoreState) → Reachable rt s → IsSound s.table
Reachable-IsSound rt s r = sound r
  where
    sound : {u : StoreState} → Reachable rt u → IsSound u.table
    sound (start e) = rw e initial-IsSound
    sound (act {s = t} r a e) = rw e (dispatch-IsSound rt a t (sound r))
