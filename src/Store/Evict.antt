-- ===== src/Store/Evict.antt =====
-- `evict` of ui/src/state/reducer.ts: the two loops that keep the table within its caps. A round
-- of either loop takes one id away, so the number of ids is fuel enough.
pub mod Steps
pub mod Bytes
pub mod Loops
use protospy.Prelude.{
  ℕ, zero, suc, ◌+◌, ◌-◌, ◌*◌, Bool, true, false, ◌&&◌, not, Option, none, some, List, [], ◌∷◌,
  length, ltb, ◌==◌, if◌then◌else◌,
}
use mathlib.Core.Option
use protospy.Store.Types.{Exchange}
use protospy.JsMap.{get, delete}
use protospy.Store.Reducer.{Table, exchange_bytes}

abbrev pub max_exchanges : ℕ
max_exchanges = 1024

abbrev pub max_payload_bytes : ℕ
max_payload_bytes = 512 * 1024 * 1024

-- `id !== protectedId`
unfoldable pub is_evictable : Option ℕ → ℕ → Bool
is_evictable none id = true
is_evictable (some p) id = not (id == p)

-- `oldestEvictable`: the first index of an id that is not protected, `none` for -1
unfoldable pub oldest_evictable : Option ℕ → List ℕ → Option ℕ
unfolding is_evictable
oldest_evictable p [] = none
oldest_evictable p (id ∷ ids) =
    if is_evictable p id then some 0 else Option.map suc (oldest_evictable p ids)

-- `ids[i]`
unfoldable pub id_at : ℕ → List ℕ → ℕ
id_at i [] = 0
id_at zero (id ∷ ids) = id
id_at (suc i) (id ∷ ids) = id_at i ids

-- `ids.splice(i, 1)`
unfoldable pub splice : ℕ → List ℕ → List ℕ
splice i [] = []
splice zero (id ∷ ids) = ids
splice (suc i) (id ∷ ids) = id ∷ splice i ids

-- `exchanges.delete(ids[i]); ids.splice(i, 1)`
unfoldable pub drop_at : ℕ → Table → Table
unfolding id_at splice delete
drop_at i t = record { exchanges = delete (id_at i t.ids) t.exchanges; ids = splice i t.ids }

-- the loop of the count cap
unfoldable pub cap_count : ℕ → ℕ → Option ℕ → Table → Table
unfolding oldest_evictable drop_at
cap_count zero max p t = t
cap_count (suc fuel) max p t = elim (ltb max (length t.ids)) [
  | false ↦ t
  | true ↦ elim (oldest_evictable p t.ids) [
    | none ↦ t
    | some i ↦ cap_count fuel max p (drop_at i t)
  ]
]

-- the bytes of one id, `if (ex != null)`
unfoldable pub bytes_of : List (ℕ × Exchange) → ℕ → ℕ
unfolding get exchange_bytes
bytes_of exchanges id = elim (get id exchanges) [ none ↦ 0 | some ex ↦ exchange_bytes ex ]

-- the sum over `ids`
unfoldable pub total_bytes : List (ℕ × Exchange) → List ℕ → ℕ
unfolding bytes_of
total_bytes exchanges [] = 0
total_bytes exchanges (id ∷ ids) = bytes_of exchanges id + total_bytes exchanges ids

-- the loop of the payload cap, with its running total
unfoldable pub cap_payload : ℕ → ℕ → Option ℕ → ℕ → Table → Table
unfolding oldest_evictable drop_at bytes_of
cap_payload zero max p total t = t
cap_payload (suc fuel) max p total t = elim (ltb max total && ltb 1 (length t.ids)) [
  | false ↦ t
  | true ↦ elim (oldest_evictable p t.ids) [
    | none ↦ t
    | some i ↦ cap_payload fuel max p (total - bytes_of t.exchanges (id_at i t.ids)) (drop_at i t)
  ]
]

unfoldable pub evict_to : (max_count max_bytes : ℕ) → Option ℕ → Table → Table
unfolding cap_count cap_payload total_bytes
evict_to max_count max_bytes p t =
    let counted = cap_count (length t.ids) max_count p t in
    cap_payload (length counted.ids) max_bytes p (total_bytes counted.exchanges counted.ids) counted

unfoldable pub evict : Table → Option ℕ → Table
unfolding evict_to
evict t protected_id = evict_to max_exchanges max_payload_bytes protected_id t
