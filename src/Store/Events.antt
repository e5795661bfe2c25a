-- ===== src/Store/Events.antt =====
-- What an event does to the other exchanges: `applyEvent` of ui/src/state/store.ts, which runs
-- `apply` and then `evict`.
use protospy.Prelude.{
  ℕ, ◌<◌, ◌≡◌, ◌≢◌, refl, sym, ap, subst, ◌∙◌, ◌⊎◌, inl, inr, Option, none, some, List, [], ◌∷◌,
  length, All, arith, eq_or_ne, lt_or_le, some_injective,
}
use protospy.Wire.{EventMessage}
use protospy.Runtime.{Runtime, Result, ok, thrown}
use protospy.JsMap.{get, delete, keys, get-delete_ne, get-none_of_ne}
use protospy.Store.Reducer.{Table, apply}
use protospy.Store.Consistency.{Distinct, IsConsistent}
use protospy.Store.Evict.{max_exchanges, max_payload_bytes, id_at, drop_at, total_bytes, evict}
use protospy.Store.Evict.Steps.{Evicts, done, step, drop_at-IsConsistent, oldest_evictable_lem}
use protospy.Store.Eviction.{evict-Evicts, evict-get_protected, evict_under_caps}
use protospy.Store.Frame.{apply-IsConsistent, apply-get_ne}
use protospy.Store.State.{StoreState, after_event}

get-delete_self {ℓ} :
    {V : Type ℓ} (k : ℕ) (m : List (ℕ × V)) → Distinct (keys m) → get k (delete k m) ≡ none
unfolding get delete
get-delete_self k [] d = refl
get-delete_self k ((j, v) ∷ m) d = elim (eq_or_ne j k) [
  | inl same ↦
      let gone = get-none_of_ne k m (subst (λ i. All (λ y. y ≢ i) (keys m)) same d.0) in
      ground (arith, gone)
  | inr other ↦ ground (arith, get-delete_self k m d.1)
]

get-delete {ℓ} :
    {V : Type ℓ} (k j : ℕ) (m : List (ℕ × V))
    → Distinct (keys m)
    → (get k (delete j m) ≡ get k m) ⊎ (get k (delete j m) ≡ none)
get-delete k j m d = elim (eq_or_ne k j) [
  | inl same ↦ inr (subst (λ i. get k (delete i m) ≡ none) same (get-delete_self k m d))
  | inr other ↦ inl (get-delete_ne j k m other)
]

stays_or_goes {ℓ} :
    {V : Type ℓ} {a b c : Option V}
    → (b ≡ a) ⊎ (b ≡ none)
    → (c ≡ b) ⊎ (c ≡ none)
    → (c ≡ a) ⊎ (c ≡ none)
stays_or_goes (inl kept) (inl kept') = inl (kept' ∙ kept)
stays_or_goes (inr gone) (inl kept') = inr (kept' ∙ gone)
stays_or_goes first (inr gone) = inr gone

-- Eviction leaves an exchange as it is or takes it away.
Evicts-get :
    {p : Option ℕ} {t u : Table}
    → Evicts p t u
    → (k : ℕ) → IsConsistent t
    → (get k u.exchanges ≡ get k t.exchanges) ⊎ (get k u.exchanges ≡ none)
unfolding drop_at
Evicts-get done k c = inl refl
Evicts-get {p} (step {t} i found r) k c =
    stays_or_goes
      (get-delete k (id_at i t.ids) t.exchanges (subst Distinct (sym c.same_ids) c.distinct))
      (Evicts-get r k (drop_at-IsConsistent i t (oldest_evictable_lem p t.ids i found).0 c))

-- A table over one of the caps.
abbrev pub IsOverCaps : Table → Type 0
IsOverCaps t = (max_exchanges < length t.ids) ⊎ (max_payload_bytes < total_bytes t.exchanges t.ids)

-- A table that eviction changes is over a cap.
over_or_same : (t : Table) (p : Option ℕ) → (evict t p ≡ t) ⊎ IsOverCaps t
over_or_same t p = elim (lt_or_le max_exchanges (length t.ids)) [
  | inl many ↦ inr (inl many)
  | inr few ↦ elim (lt_or_le max_payload_bytes (total_bytes t.exchanges t.ids)) [
    | inl large ↦ inr (inr large)
    | inr small ↦ inl (evict_under_caps t p few (inl small))
  ]
]

protected_or_not :
    (t : Table) (p : Option ℕ) (k : ℕ)
    → (get k (evict t p).exchanges ≡ get k t.exchanges) ⊎ (p ≢ some k)
protected_or_not t none k = inr (λ e. cc)
protected_or_not t (some x) k = elim (eq_or_ne x k) [
  | inl same ↦ inl (
      subst (λ y. get y (evict t (some x)).exchanges ≡ get y t.exchanges) same
        (evict-get_protected t x))
  | inr other ↦ inr (λ e. other (some_injective e))
]

evict-get :
    (t : Table) (p : Option ℕ) (k : ℕ)
    → IsConsistent t
    → (get k (evict t p).exchanges ≡ get k t.exchanges)
      ⊎ ((get k (evict t p).exchanges ≡ none) × (p ≢ some k) × IsOverCaps t)
evict-get t p k c = elim (over_or_same t p) [
  | inl same ↦ inl (ap (λ (u : Table). get k u.exchanges) same)
  | inr over ↦ elim (Evicts-get (evict-Evicts t p) k c) [
    | inl kept ↦ inl kept
    | inr gone ↦ elim (protected_or_not t p k) [
      | inl kept ↦ inl kept
      | inr unprotected ↦ inr (gone, unprotected, over)
    ]
  ]
]

-- The event has pushed the exchange out: it is not the selected one, and with the event's own
-- exchange in place the table was over a cap.
abbrev pub IsPushedOut : Runtime → EventMessage → StoreState → ℕ → Type 0
IsPushedOut rt msg s k =
    (get k (after_event rt msg s).table.exchanges ≡ none)
    × (s.selected_id ≢ some k)
    × ((t : Table) × (apply rt s.table msg ≡ ok t) × IsOverCaps t)

-- Where the map and the array of ids agree, an event leaves every exchange but its own as it is, or
-- pushes it out, which happens only to an exchange that is not selected and when the table that
-- `apply` returns is over a cap.
pub after_event-get_ne :
    (rt : Runtime) (msg : EventMessage) (s : StoreState) (k : ℕ)
    → IsConsistent s.table
    → k ≢ msg.exchange.exchange_id
    → (get k (after_event rt msg s).table.exchanges ≡ get k s.table.exchanges)
      ⊎ IsPushedOut rt msg s k
unfolding after_event
after_event-get_ne rt msg s k c other = cases (apply rt s.table msg) refl
  where
    after : Result Table → StoreState
    after r = elim r as (λ _. StoreState) [
      | thrown ↦ s
      | ok t ↦ record s { table = evict t s.selected_id }
    ]

    cases :
        (r : Result Table)
        → apply rt s.table msg ≡ r
        → (get k (after r).table.exchanges ≡ get k s.table.exchanges)
          ⊎ ((get k (after r).table.exchanges ≡ none)
              × (s.selected_id ≢ some k)
              × ((t : Table) × (apply rt s.table msg ≡ ok t) × IsOverCaps t))
    cases thrown e = inl refl
    cases (ok t) e =
        let same = apply-get_ne rt s.table msg e k other in
        elim (evict-get t s.selected_id k (apply-IsConsistent rt s.table msg e c)) [
          | inl kept ↦ inl (kept ∙ same)
          | inr (gone, unselected, over) ↦ inr (gone, unselected, (t, e, over))
        ]
