-- ===== src/Store/Evict/Loops.antt =====
-- The two loops: they make steps of eviction only, and they end within their caps.
use protospy.Prelude.{
  ℕ, zero, suc, ◌+◌, ◌-◌, ◌≤◌, ◌<◌, ◌≡◌, ◌⊎◌, inl, inr, ◌&&◌, Option, none, List, [], ◌∷◌, length,
  arith, ltb, Option-cases, Bool-cases,
}
use protospy.Store.Reducer.{Table}
use protospy.Store.Evict.{
  is_evictable, oldest_evictable, id_at, drop_at, cap_count, cap_payload, bytes_of,
}
use protospy.Store.Consistency.{Distinct, IsConsistent}
use protospy.Store.Evict.Steps.{
  Evicts, done, step, oldest_evictable_lem, oldest_evictable-none, length-splice,
  drop_at-IsConsistent,
}
use protospy.Store.Evict.Bytes.{table_bytes, table_bytes-drop_at}

pub cap_count-Evicts :
    (fuel max : ℕ) (p : Option ℕ) (t : Table) → Evicts p t (cap_count fuel max p t)
unfolding cap_count
cap_count-Evicts zero max p t = done
cap_count-Evicts (suc fuel) max p t = elim (Bool-cases (ltb max (length t.ids))) [
  | inr under ↦ rw (under, cap_count) done
  | inl over ↦ elim (Option-cases (oldest_evictable p t.ids)) [
    | inl stuck ↦ rw (over, stuck, cap_count) done
    | inr (i, found) ↦
        rw (over, found, cap_count) (step i found (cap_count-Evicts fuel max p (drop_at i t)))
  ]
]

pub cap_payload-Evicts :
    (fuel max : ℕ) (p : Option ℕ) (total : ℕ) (t : Table)
    → Evicts p t (cap_payload fuel max p total t)
unfolding cap_payload
cap_payload-Evicts zero max p total t = done
cap_payload-Evicts (suc fuel) max p total t =
    elim (Bool-cases (ltb max total && ltb 1 (length t.ids))) [
      | inr under ↦ rw (under, cap_payload) done
      | inl over ↦ elim (Option-cases (oldest_evictable p t.ids)) [
        | inl stuck ↦ rw (over, stuck, cap_payload) done
        | inr (i, found) ↦
            rw (over, found, cap_payload)
              (step i found (
                cap_payload-Evicts fuel max p (total - bytes_of t.exchanges (id_at i t.ids))
                  (drop_at i t)))
      ]
    ]

-- At most one id is protected, so a table without an evictable id has one id at most.
length-le-one :
    (p : Option ℕ) (ids : List ℕ) → Distinct ids → oldest_evictable p ids ≡ none → length ids ≤ 1
unfolding is_evictable
length-le-one p [] d h = omega arith
length-le-one p (x ∷ []) d h = omega arith
length-le-one p (x ∷ y ∷ ids) d h =
    absurd (let all = oldest_evictable-none p (x ∷ y ∷ ids) h in ground arith)

pub length-drop_at :
    (i : ℕ) (t : Table) → i < length t.ids → length (drop_at i t).ids + 1 ≡ length t.ids
unfolding drop_at
length-drop_at i t h = length-splice i t.ids h

-- With fuel for every id the count loop ends within its cap.
pub cap_count-le :
    (fuel max : ℕ) (p : Option ℕ) (t : Table)
    → 1 ≤ max
    → IsConsistent t
    → length t.ids ≤ fuel
    → length (cap_count fuel max p t).ids ≤ max
unfolding cap_count
cap_count-le zero max p t pos c enough = omega arith
cap_count-le (suc fuel) max p t pos c enough = elim (Bool-cases (ltb max (length t.ids))) [
  | inr under ↦ rw (under, cap_count) (ground arith)
  | inl over ↦ elim (Option-cases (oldest_evictable p t.ids)) [
    | inl stuck ↦
        rw (over, stuck, cap_count) (omega (arith, length-le-one p t.ids c.distinct stuck))
    | inr (i, found) ↦
        let inside = (oldest_evictable_lem p t.ids i found).0 in
        rw (over, found, cap_count)
          (cap_count-le fuel max p (drop_at i t) pos (drop_at-IsConsistent i t inside c)
            (omega (arith, length-drop_at i t inside)))
  ]
]

-- With fuel for every id and an exact total the payload loop ends within its cap, or with one
-- exchange at most.
pub cap_payload-le :
    (fuel max : ℕ) (p : Option ℕ) (total : ℕ) (t : Table)
    → IsConsistent t
    → length t.ids ≤ fuel
    → total ≡ table_bytes t
    → (table_bytes (cap_payload fuel max p total t) ≤ max)
      ⊎ (length (cap_payload fuel max p total t).ids ≤ 1)
unfolding cap_payload
cap_payload-le zero max p total t c enough exact = inr (omega arith)
cap_payload-le (suc fuel) max p total t c enough exact =
    elim (Bool-cases (ltb max total && ltb 1 (length t.ids))) [
      | inr under ↦ rw (under, cap_payload) (ground arith)
      | inl over ↦ elim (Option-cases (oldest_evictable p t.ids)) [
        | inl stuck ↦ rw (over, stuck, cap_payload) (inr (length-le-one p t.ids c.distinct stuck))
        | inr (i, found) ↦
            let inside = (oldest_evictable_lem p t.ids i found).0 in
            rw (over, found, cap_payload)
              (cap_payload-le fuel max p (total - bytes_of t.exchanges (id_at i t.ids))
                (drop_at i t) (drop_at-IsConsistent i t inside c)
                (omega (arith, length-drop_at i t inside))
                (omega (arith, table_bytes-drop_at t i c inside)))
      ]
    ]
