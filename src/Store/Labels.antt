-- ===== src/Store/Labels.antt =====
-- Every exchange in the map carries the id that it is stored under.
use protospy.Prelude.{
  ℕ, ◌≡◌, refl, ap, ◌∙◌, Option, none, some, List, [], ◌∷◌, All, arith, inl, inr, ◌==◌, Bool-cases,
  Option-cases, Text,
}
use protospy.Wire.{Direction, Event, EventMessage}
use protospy.Runtime.{Runtime, ok, steps_return}
use protospy.Store.Types.{Exchange}
use protospy.JsMap.{get, set, delete}
use protospy.Store.Reducer.{
  Table, initial_body_to_state, append_body_data, update_exchange, seed, store_exchange, apply,
}
use protospy.Store.Frame.{apply_change}
use protospy.Store.Evict.{drop_at, evict}
use protospy.Store.Evict.Steps.{Evicts, done, step}
use protospy.Store.Eviction.{evict-Evicts}

abbrev pub IsLabelled : Table → Type 0
IsLabelled t = All (λ e. e.1.id ≡ e.0) t.exchanges

pub All-set :
    (k : ℕ) (ex : Exchange) (m : List (ℕ × Exchange))
    → ex.id ≡ k
    → All (λ e. e.1.id ≡ e.0) m
    → All (λ e. e.1.id ≡ e.0) (set k ex m)
unfolding set
All-set k ex [] h a = (h, tt)
All-set k ex ((j, w) ∷ m) h a = elim (Bool-cases (j == k)) [
  | inl e ↦ rw e (ground arith, a.1)
  | inr e ↦ rw e (a.0, All-set k ex m h a.1)
]

All-delete :
    (k : ℕ) (m : List (ℕ × Exchange))
    → All (λ e. e.1.id ≡ e.0) m
    → All (λ e. e.1.id ≡ e.0) (delete k m)
unfolding delete
All-delete k [] a = a
All-delete k ((j, w) ∷ m) a = elim (Bool-cases (j == k)) [
  | inl e ↦ rw e a.1
  | inr e ↦ rw e (a.0, All-delete k m a.1)
]

pub id_of_get :
    (k : ℕ) (ex : Exchange) (m : List (ℕ × Exchange))
    → All (λ e. e.1.id ≡ e.0) m
    → get k m ≡ some ex
    → ex.id ≡ k
unfolding get
id_of_get k ex [] a h = ground arith
id_of_get k ex ((j, w) ∷ m) a h = elim (Bool-cases (j == k)) [
  | inl e ↦
      let here : some w ≡ some ex = rw e at h in let at : w ≡ ex = cc in rw (← at) (ground arith)
  | inr e ↦ id_of_get k ex m a.1 (rw e at h)
]

-- No event changes the id of an exchange.
pub update_exchange-id :
    (rt : Runtime) (d : Direction) (e : Event) (ex ex' : Exchange)
    → update_exchange rt d e ex ≡ ok (some ex')
    → ex'.id ≡ ex.id
unfolding update_exchange
update_exchange-id rt d (Event.request method uri version headers body) ex ex' h =
    let (_, _, same) = steps_return (initial_body_to_state rt body headers) _ _ h in ground arith
update_exchange-id rt d (Event.response status version headers ms body) ex ex' h =
    let (_, _, same) = steps_return (initial_body_to_state rt body headers) _ _ h in ground arith
update_exchange-id rt Direction.request (Event.body_data event) ex ex' h =
    let (_, _, same) = steps_return (append_body_data rt ex.request_body event) _ _ h in
    ground arith
update_exchange-id rt Direction.response (Event.body_data event) ex ex' h =
    let (_, _, same) = steps_return (append_body_data rt ex.response_body event) _ _ h in
    ground arith
update_exchange-id rt d (Event.error side message) ex ex' h = ground arith
update_exchange-id rt d Event.unknown ex ex' h = ground arith

store_exchange-IsLabelled :
    (t : Table) (id : ℕ) (changed : Option Exchange)
    → IsLabelled t
    → ((ex : Exchange) → changed ≡ some ex → ex.id ≡ id)
    → IsLabelled (store_exchange t id changed)
store_exchange-IsLabelled t id none a h = a
store_exchange-IsLabelled t id (some ex) a h = All-set id ex t.exchanges (h ex refl) a

seed-id :
    (t : Table) (id : ℕ) (timestamp : Text)
    → IsLabelled t
    → (seed id timestamp (get id t.exchanges)).id ≡ id
seed-id t id timestamp a = elim (Option-cases (get id t.exchanges)) [
  | inl fresh ↦ rw fresh refl
  | inr (ex, found) ↦ rw found (id_of_get id ex t.exchanges a found)
]

pub apply-IsLabelled :
    (rt : Runtime) (t : Table) (msg : EventMessage) {u : Table}
    → apply rt t msg ≡ ok u
    → IsLabelled t
    → IsLabelled u
apply-IsLabelled rt t msg done' a =
    let (changed, updated, same) = apply_change rt t msg done' in
    rw (← same) (
      store_exchange-IsLabelled t msg.exchange.exchange_id changed a (λ ex e.
        update_exchange-id rt msg.direction msg.event _ ex (updated ∙ ap ok e)
        ∙ seed-id t msg.exchange.exchange_id msg.exchange.timestamp a))

Evicts-IsLabelled : {p : Option ℕ} {t u : Table} → Evicts p t u → IsLabelled t → IsLabelled u
unfolding drop_at
Evicts-IsLabelled done a = a
Evicts-IsLabelled (step {t} i e r) a = Evicts-IsLabelled r (All-delete _ t.exchanges a)

pub evict-IsLabelled : (t : Table) (p : Option ℕ) → IsLabelled t → IsLabelled (evict t p)
evict-IsLabelled t p = Evicts-IsLabelled (evict-Evicts t p)
