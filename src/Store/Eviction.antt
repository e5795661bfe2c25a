-- ===== src/Store/Eviction.antt =====
-- What `evict` of ui/src/state/reducer.ts promises: its caps, the protected exchange, the order.
use protospy.Prelude.{
  ℕ, zero, suc, ◌-◌, ◌≤◌, ◌<◌, ◌≡◌, refl, ◌⊎◌, Option, some, length, arith, ltb, Bool-cases, false,
  ◌&&◌, inl, inr, Option-cases,
}
use protospy.JsMap.{get}
use protospy.Store.Reducer.{Table}
use protospy.Store.Evict.{
  max_exchanges, max_payload_bytes, oldest_evictable, id_at, drop_at, bytes_of, cap_count,
  total_bytes, cap_payload, evict,
}
use protospy.Store.Consistency.{IsConsistent}
use protospy.Store.Evict.Steps.{
  Evicts, done, step, drop_evictable, Evicts-IsConsistent, Evicts-get_protected,
  Evicts-oldest_first, oldest_evictable_lem,
}
use protospy.Store.Evict.Loops.{
  cap_count-Evicts, cap_payload-Evicts, cap_count-le, cap_payload-le, length-drop_at,
}

Evicts-trans : {p : Option ℕ} {t u v : Table} → Evicts p t u → Evicts p u v → Evicts p t v
Evicts-trans done s = s
Evicts-trans (step i e r) s = step i e (Evicts-trans r s)

Evicts-length-le : {p : Option ℕ} {t u : Table} → Evicts p t u → length u.ids ≤ length t.ids
Evicts-length-le done = omega arith
Evicts-length-le {p} (step {t} i e r) =
    omega (arith, Evicts-length-le r, length-drop_at i t (oldest_evictable_lem p t.ids i e).0)

module _ (t : Table) (p : Option ℕ) where
  counted : Table
  counted = cap_count (length t.ids) max_exchanges p t

  pub evict-Evicts : Evicts p t (evict t p)
  unfolding evict counted
  evict-Evicts = Evicts-trans (cap_count-Evicts (length t.ids) max_exchanges p t) (
      cap_payload-Evicts (length counted.ids) max_payload_bytes p
        (total_bytes counted.exchanges counted.ids) counted)

  -- Eviction keeps the map and the array of ids in step, with no id twice.
  pub evict-IsConsistent : IsConsistent t → IsConsistent (evict t p)
  evict-IsConsistent = Evicts-IsConsistent evict-Evicts

  -- Eviction ends with at most 1024 exchanges, and with at most 512 MB of bodies unless a single
  -- exchange is left.
  pub evict_within_caps :
      IsConsistent t
      → (length (evict t p).ids ≤ max_exchanges)
        × ((total_bytes (evict t p).exchanges (evict t p).ids ≤ max_payload_bytes)
            ⊎ (length (evict t p).ids ≤ 1))
  unfolding evict counted
  evict_within_caps c =
      let c' = Evicts-IsConsistent (cap_count-Evicts (length t.ids) max_exchanges p t) c in
      (
        omega (
          arith,
          cap_count-le (length t.ids) max_exchanges p t (omega arith) c (omega arith),
          Evicts-length-le (
              cap_payload-Evicts (length counted.ids) max_payload_bytes p
                (total_bytes counted.exchanges counted.ids) counted),
        ),
        cap_payload-le (length counted.ids) max_payload_bytes p
            (total_bytes counted.exchanges counted.ids) counted c' (omega arith) refl,
      )

  -- What is evicted is the oldest: the ids that stay are the old ones without the first few that
  -- are not protected, in their order.
  pub evict_oldest_first : (n : ℕ) × ((evict t p).ids ≡ drop_evictable p n t.ids)
  evict_oldest_first = Evicts-oldest_first evict-Evicts

-- The selected exchange is never evicted and never changed.
pub evict-get_protected :
    (t : Table) (x : ℕ) → get x (evict t (some x)).exchanges ≡ get x t.exchanges
evict-get_protected t x = Evicts-get_protected (evict-Evicts t (some x))

cap_count_under :
    (fuel max : ℕ) (p : Option ℕ) (t : Table) → length t.ids ≤ max → cap_count fuel max p t ≡ t
unfolding cap_count
cap_count_under zero max p t h = refl
cap_count_under (suc fuel) max p t h =
    let under : ltb max (length t.ids) ≡ false = ground arith in rw (under, cap_count) refl

cap_payload_under :
    (fuel max : ℕ) (p : Option ℕ) (total : ℕ) (t : Table)
    → (total ≤ max) ⊎ (length t.ids ≤ 1)
    → cap_payload fuel max p total t ≡ t
unfolding cap_payload
cap_payload_under zero max p total t h = refl
cap_payload_under (suc fuel) max p total t h =
    let under : (ltb max total && ltb 1 (length t.ids)) ≡ false = ground arith in
    rw (under, cap_payload) refl

-- Within its caps `evict` changes nothing.
pub evict_under_caps :
    (t : Table) (p : Option ℕ)
    → length t.ids ≤ max_exchanges
    → (total_bytes t.exchanges t.ids ≤ max_payload_bytes) ⊎ (length t.ids ≤ 1)
    → evict t p ≡ t
unfolding evict
evict_under_caps t p h k =
    rw (cap_count_under (length t.ids) max_exchanges p t h)
      (cap_payload_under (length t.ids) max_payload_bytes p (total_bytes t.exchanges t.ids) t k)

cap_count_nonempty :
    (fuel max : ℕ) (p : Option ℕ) (t : Table)
    → 1 ≤ max
    → 0 < length t.ids
    → 0 < length (cap_count fuel max p t).ids
unfolding cap_count
cap_count_nonempty zero max p t pos h = h
cap_count_nonempty (suc fuel) max p t pos h = elim (Bool-cases (ltb max (length t.ids))) [
  | inr under ↦ rw (under, cap_count) h
  | inl over ↦ elim (Option-cases (oldest_evictable p t.ids)) [
    | inl stuck ↦ rw (over, stuck, cap_count) h
    | inr (i, found) ↦
        let inside = (oldest_evictable_lem p t.ids i found).0 in
        rw (over, found, cap_count)
          (cap_count_nonempty fuel max p (drop_at i t) pos
            (ground (arith, length-drop_at i t inside)))
  ]
]

cap_payload_nonempty :
    (fuel max : ℕ) (p : Option ℕ) (total : ℕ) (t : Table)
    → 0 < length t.ids
    → 0 < length (cap_payload fuel max p total t).ids
unfolding cap_payload
cap_payload_nonempty zero max p total t h = h
cap_payload_nonempty (suc fuel) max p total t h =
    elim (Bool-cases (ltb max total && ltb 1 (length t.ids))) [
      | inr under ↦ rw (under, cap_payload) h
      | inl over ↦ elim (Option-cases (oldest_evictable p t.ids)) [
        | inl stuck ↦ rw (over, stuck, cap_payload) h
        | inr (i, found) ↦
            let inside = (oldest_evictable_lem p t.ids i found).0 in
            rw (over, found, cap_payload)
              (cap_payload_nonempty fuel max p (total - bytes_of t.exchanges (id_at i t.ids))
                (drop_at i t) (ground (arith, length-drop_at i t inside)))
      ]
    ]

-- A table with an exchange is never emptied.
pub evict_nonempty : (t : Table) (p : Option ℕ) → 0 < length t.ids → 0 < length (evict t p).ids
unfolding evict counted
evict_nonempty t p h =
    let c = counted t p in
    cap_payload_nonempty (length c.ids) max_payload_bytes p (total_bytes c.exchanges c.ids) c
      (cap_count_nonempty (length t.ids) max_exchanges p t (omega arith) h)
