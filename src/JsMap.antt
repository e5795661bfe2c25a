-- ===== src/JsMap.antt =====
-- A JavaScript `Map` with numbers for keys: its entries in the order of insertion. Setting a key
-- that is there keeps its place; deleting a key that is not there changes nothing.
use protospy.Prelude.{
  ℕ, ◌≡◌, refl, ◌≢◌, Option, none, some, List, [], ◌∷◌, ◌++◌, map, ◌==◌, if◌then◌else◌, arith, All,
}

module _ {ℓ} {V : Type ℓ} where
  unfoldable pub get : ℕ → List (ℕ × V) → Option V
  get k [] = none
  get k ((j, v) ∷ m) = if j == k then some v else get k m

  unfoldable pub set : ℕ → V → List (ℕ × V) → List (ℕ × V)
  set k v [] = (k, v) ∷ []
  set k v ((j, w) ∷ m) = if j == k then (j, v) ∷ m else (j, w) ∷ set k v m

  unfoldable pub delete : ℕ → List (ℕ × V) → List (ℕ × V)
  delete k [] = []
  delete k ((j, v) ∷ m) = if j == k then m else (j, v) ∷ delete k m

  abbrev pub keys : List (ℕ × V) → List ℕ
  keys = map (λ e. e.0)

  pub get-set :
      (k j : ℕ) (v : V) (m : List (ℕ × V))
      → get j (set k v m) ≡ (if k == j then some v else get j m)
  unfolding get set
  get-set k j v [] = refl
  get-set k j v ((i, w) ∷ m) = ground (arith, get-set k j v m)

  pub get-delete_ne : (k j : ℕ) (m : List (ℕ × V)) → j ≢ k → get j (delete k m) ≡ get j m
  unfolding get delete
  get-delete_ne k j [] h = refl
  get-delete_ne k j ((i, w) ∷ m) h = ground (arith, get-delete_ne k j m)

  -- A key that is there keeps the list of keys as it is.
  pub keys-set_old :
      (k : ℕ) (v w : V) (m : List (ℕ × V)) → get k m ≡ some w → keys (set k v m) ≡ keys m
  unfolding get set
  keys-set_old k v w [] h = ground arith
  keys-set_old k v w ((j, u) ∷ m) h = ground (arith, keys-set_old k v w m)

  -- A new key comes last.
  pub keys-set_new :
      (k : ℕ) (v : V) (m : List (ℕ × V)) → get k m ≡ none → keys (set k v m) ≡ keys m ++ k ∷ []
  unfolding get set
  keys-set_new k v [] h = refl
  keys-set_new k v ((j, u) ∷ m) h = ground (arith, keys-set_new k v m)

  -- A miss means that the key differs from every key.
  pub ne_of_get-none : (k : ℕ) (m : List (ℕ × V)) → get k m ≡ none → All (λ j. j ≢ k) (keys m)
  unfolding get
  ne_of_get-none k [] h = tt
  ne_of_get-none k ((j, u) ∷ m) h = (ground arith, ne_of_get-none k m (ground arith))

  pub get-none_of_ne : (k : ℕ) (m : List (ℕ × V)) → All (λ j. j ≢ k) (keys m) → get k m ≡ none
  unfolding get
  get-none_of_ne k [] h = refl
  get-none_of_ne k ((j, u) ∷ m) h = ground (arith, get-none_of_ne k m h.1)
