-- ===== src/Store/Evict/Bytes.antt =====
-- The running total of the payload loop is the sum that the source computes from scratch.
use protospy.Prelude.{ℕ, ◌+◌, ◌<◌, ◌≡◌, refl, sym, ap, ◌∙◌, ◌≢◌, List, [], ◌∷◌, length, All, arith}
use protospy.Store.Types.{Exchange}
use protospy.JsMap.{delete, keys}
use protospy.Store.Reducer.{Table, exchange_bytes}
use protospy.Store.Evict.{id_at, drop_at, bytes_of, total_bytes}
use protospy.Store.Consistency.{IsConsistent, Distinct}
use protospy.Store.Evict.Steps.{drop_at-IsConsistent}

-- The bytes of all entries of a map.
entries_bytes : List (ℕ × Exchange) → ℕ
entries_bytes [] = 0
entries_bytes ((k, ex) ∷ m) = exchange_bytes ex + entries_bytes m

total_bytes-skip :
    (k : ℕ) (ex : Exchange) (m : List (ℕ × Exchange)) (ids : List ℕ)
    → All (λ j. j ≢ k) ids
    → total_bytes ((k, ex) ∷ m) ids ≡ total_bytes m ids
unfolding total_bytes
total_bytes-skip k ex m [] h = refl
total_bytes-skip k ex m (j ∷ ids) h = ground (arith, total_bytes-skip k ex m ids h.1)

total_bytes-keys :
    (m : List (ℕ × Exchange)) → Distinct (keys m) → total_bytes m (keys m) ≡ entries_bytes m
unfolding total_bytes entries_bytes
total_bytes-keys [] d = refl
total_bytes-keys ((k, ex) ∷ m) d =
    ground (arith, total_bytes-skip k ex m (keys m) d.0, total_bytes-keys m d.1)

entries_bytes-delete :
    (k : ℕ) (m : List (ℕ × Exchange)) → entries_bytes (delete k m) + bytes_of m k ≡ entries_bytes m
unfolding entries_bytes delete bytes_of
entries_bytes-delete k [] = omega arith
entries_bytes-delete k ((j, ex) ∷ m) = ground (arith, entries_bytes-delete k m)

-- The bytes of a consistent table.
abbrev pub table_bytes : Table → ℕ
table_bytes t = total_bytes t.exchanges t.ids

table_bytes-entries_bytes : (t : Table) → IsConsistent t → table_bytes t ≡ entries_bytes t.exchanges
table_bytes-entries_bytes t c =
    ap (total_bytes t.exchanges) (sym c.same_ids)
    ∙ total_bytes-keys t.exchanges (rw c.same_ids c.distinct)

-- Subtracting the bytes of the evicted exchange gives the bytes of what is left, and never goes
-- below zero.
pub table_bytes-drop_at :
    (t : Table) (i : ℕ)
    → IsConsistent t
    → i < length t.ids
    → table_bytes (drop_at i t) + bytes_of t.exchanges (id_at i t.ids) ≡ table_bytes t
table_bytes-drop_at t i c h =
    let left : table_bytes (drop_at i t) ≡ entries_bytes (delete (id_at i t.ids) t.exchanges) =
      table_bytes-entries_bytes (drop_at i t) (drop_at-IsConsistent i t h c)
      ∙ (unfold drop_at in refl) in
    omega
      (arith, left, table_bytes-entries_bytes t c, entries_bytes-delete (id_at i t.ids) t.exchanges)
