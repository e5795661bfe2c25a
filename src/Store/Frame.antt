-- ===== src/Store/Frame.antt =====
-- What `apply` of ui/src/state/reducer.ts does to the table as a whole.
use protospy.Prelude.{
  ℕ, ◌≡◌, refl, sym, ap, subst, ◌∙◌, ◌≢◌, Option, none, some, List, [], ◌∷◌, ◌++◌, All, All-append,
  arith, Option-cases, if◌then◌else◌, inl, inr, ◌==◌,
}
use protospy.Wire.{Event, EventMessage}
use protospy.Runtime.{Runtime, ok, steps_return}
use protospy.Store.Types.{Exchange}
use protospy.JsMap.{get, get-set, keys-set_old, keys-set_new, ne_of_get-none}
use protospy.Store.Reducer.{Table, update_exchange, seed, store_exchange, apply}
use protospy.Store.Consistency.{Distinct, IsConsistent}

Distinct-concat :
    (xs : List ℕ) (x : ℕ) → Distinct xs → All (λ j. j ≢ x) xs → Distinct (xs ++ x ∷ [])
Distinct-concat [] x d h = (tt, tt)
Distinct-concat (y ∷ ys) x d h =
    (All-append (λ z. z ≢ y) ys (x ∷ []) d.0 (λ e. h.0 (sym e), tt), Distinct-concat ys x d.1 h.1)

store_exchange-IsConsistent :
    (t : Table) (id : ℕ) (changed : Option Exchange)
    → IsConsistent t
    → IsConsistent (store_exchange t id changed)
store_exchange-IsConsistent t id none c = c
store_exchange-IsConsistent t id (some ex) c = elim (Option-cases (get id t.exchanges)) [
  | inl fresh ↦
      let ne = ne_of_get-none id t.exchanges fresh in
      record {
        same_ids =
            rw fresh (keys-set_new id ex t.exchanges fresh ∙ ap (λ ids. ids ++ id ∷ []) c.same_ids);
        distinct = rw fresh (Distinct-concat t.ids id c.distinct (rw (← c.same_ids) ne));
      }
  | inr (old, found) ↦ record {
    same_ids = rw found (keys-set_old id ex old t.exchanges found ∙ c.same_ids);
    distinct = rw found c.distinct;
  }
]

store_exchange-get :
    (t : Table) (id k : ℕ) (ex : Exchange)
    → get k (store_exchange t id (some ex)).exchanges
      ≡ (if id == k then some ex else get k t.exchanges)
store_exchange-get t id k ex = get-set id k ex t.exchanges

store_exchange-get_ne :
    (t : Table) (id k : ℕ) (changed : Option Exchange)
    → k ≢ id
    → get k (store_exchange t id changed).exchanges ≡ get k t.exchanges
store_exchange-get_ne t id k none h = refl
store_exchange-get_ne t id k (some ex) h = ground (arith, get-set id k ex t.exchanges)

module _ (rt : Runtime) (t : Table) (msg : EventMessage) {u : Table}
    (done : apply rt t msg ≡ ok u) where
  -- The change that a successful call has made.
  pub apply_change :
      (changed : Option Exchange) × (update_exchange rt msg.direction msg.event (
          seed msg.exchange.exchange_id msg.exchange.timestamp
            (get msg.exchange.exchange_id t.exchanges))
        ≡ ok changed)
      × (store_exchange t msg.exchange.exchange_id changed ≡ u)
  unfolding apply
  apply_change =
      let (changed, updated, same) =
        steps_return (update_exchange rt msg.direction msg.event _) _ _ done in
      (changed, updated, ground arith)

  -- A successful call keeps the map and the array of ids in step, with no id twice.
  pub apply-IsConsistent : IsConsistent t → IsConsistent u
  apply-IsConsistent c =
      let (changed, _, same) = apply_change in
      subst IsConsistent same (store_exchange-IsConsistent t msg.exchange.exchange_id changed c)

  -- `apply` changes no exchange but the one that the event is of.
  pub apply-get_ne : (k : ℕ) → k ≢ msg.exchange.exchange_id → get k u.exchanges ≡ get k t.exchanges
  apply-get_ne k h =
      let (changed, _, same) = apply_change in
      subst (λ (v : Table). get k v.exchanges ≡ get k t.exchanges) same
        (store_exchange-get_ne t msg.exchange.exchange_id k changed h)

-- What an event does to its own exchange is a function of that exchange as it was and of the
-- event; other exchanges and the order of the ids have no part in it.
pub apply-get_self :
    (rt : Runtime) (t : Table) (msg : EventMessage) (ex : Exchange)
    → update_exchange rt msg.direction msg.event (
        seed msg.exchange.exchange_id msg.exchange.timestamp
          (get msg.exchange.exchange_id t.exchanges))
      ≡ ok (some ex)
    → (u : Table) × (apply rt t msg ≡ ok u) × (get msg.exchange.exchange_id u.exchanges ≡ some ex)
unfolding apply
apply-get_self rt t msg ex h = (
  store_exchange t msg.exchange.exchange_id (some ex),
  rw h refl,
  store_exchange-get t msg.exchange.exchange_id msg.exchange.exchange_id ex ∙ ground arith,
)

-- An event of an unknown type leaves the table as it is.
pub apply-unknown :
    (rt : Runtime) (t : Table) (msg : EventMessage)
    → msg.event ≡ Event.unknown
    → apply rt t msg ≡ ok t
unfolding apply update_exchange
apply-unknown rt t msg h = rw h refl
