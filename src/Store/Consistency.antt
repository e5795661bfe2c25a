-- ===== src/Store/Consistency.antt =====
-- The invariant of the table of exchanges.
use protospy.Prelude.{ℕ, ◌≡◌, ◌≢◌, List, [], ◌∷◌, All}
use protospy.JsMap.{keys}
use protospy.Store.Reducer.{Table}

-- No number twice.
abbrev pub Distinct : List ℕ → Type 0
Distinct [] = Unit
Distinct (x ∷ xs) = All (λ y. y ≢ x) xs × Distinct xs

-- The map and the array agree: the same ids in the same order, none twice.
pub record IsConsistent (t : Table) : Type 0 where
  pub same_ids : keys t.exchanges ≡ t.ids
  pub distinct : Distinct t.ids
