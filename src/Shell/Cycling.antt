-- ===== src/Shell/Cycling.antt =====
-- The loops of `onNextMatching` and `onNextInTrace` (ui/src/components/app-shell.tsx) go once around
-- the visible ids.
use native.Mathlib.Nat.{mod-eq_of_lt, add-mod_right}
use protospy.Prelude.{
  ℕ, zero, suc, ◌+◌, ◌-◌, ◌%◌, ◌<◌, ◌≤◌, ◌≡◌, refl, sym, ap, ◌∙◌, Bool, Option, none, some, List,
  [], ◌∷◌, ◌++◌, suc_add, length, take, drop, length-take, length-drop, length-append, arith,
  Option-cases, inl, inr, lt_or_le, Bool-cases, ◌==◌,
}
use mathlib.Core.Option
use protospy.Runtime.{Runtime}
use protospy.Store.State.{StoreState}
use protospy.Store.Selectors.{select_visible_ids}
use protospy.Store.Types.{Exchange}
use protospy.Shell.Moves.{
  select_exchange, select_next, index_of_id, get_elem?, offset, candidate_at, search_from,
}
use protospy.Shell.Selection.{search_from_miss, search_from_hit}

get_elem?-drop : (ids : List ℕ) (m j : ℕ) → get_elem? (drop m ids) j ≡ get_elem? ids (m + j)
unfolding get_elem?
get_elem?-drop ids zero j = ap (get_elem? ids) (omega arith)
get_elem?-drop [] (suc m) j = refl
get_elem?-drop (x ∷ ids) (suc m) j =
    get_elem?-drop ids m j ∙ ap (get_elem? (x ∷ ids)) (sym (suc_add m j))

get_elem?-append_left :
    (xs ys : List ℕ) (j : ℕ) → j < length xs → get_elem? (xs ++ ys) j ≡ get_elem? xs j
unfolding get_elem?
get_elem?-append_left [] ys j below = absurd (omega arith)
get_elem?-append_left (x ∷ xs) ys zero below = refl
get_elem?-append_left (x ∷ xs) ys (suc j) below = get_elem?-append_left xs ys j (omega arith)

get_elem?-append_right :
    (xs ys : List ℕ) (j : ℕ) → get_elem? (xs ++ ys) (length xs + j) ≡ get_elem? ys j
unfolding get_elem?
get_elem?-append_right [] ys j = ap (get_elem? ys) (omega arith)
get_elem?-append_right (x ∷ xs) ys j =
    ap (get_elem? (x ∷ xs ++ ys)) (suc_add (length xs) j) ∙ get_elem?-append_right xs ys j

get_elem?-take : (ids : List ℕ) (m j : ℕ) → j < m → get_elem? (take m ids) j ≡ get_elem? ids j
unfolding get_elem?
get_elem?-take ids zero j below = absurd (omega arith)
get_elem?-take [] (suc m) j below = refl
get_elem?-take (x ∷ ids) (suc m) zero below = refl
get_elem?-take (x ∷ ids) (suc m) (suc j) below = get_elem?-take ids m j (omega arith)

add_zero : (k : ℕ) → k ≡ k + 0
add_zero k = omega arith

add_one_add : (k j : ℕ) → k + 1 + j ≡ k + suc j
add_one_add k j = omega arith

i_behind : (i j : ℕ) → i + (1 + j) ≡ suc i + j
i_behind i j = omega arith

back_again : (m n : ℕ) → n ≤ m → m ≡ m - n + n
back_again m n around = omega arith

d_below : (i j n : ℕ) → i < n → j < n → i + (1 + j) - n < n
d_below i j n placed below = omega arith

past_end : (i j n : ℕ) → i < n → j < n → n ≤ i + (1 + j) → (i + (1 + j)) % n ≡ i + (1 + j) - n
past_end i j n placed below around =
    let d = i + (1 + j) - n in
    ap (λ m. m % n) (back_again (i + (1 + j)) n around)
    ∙ add-mod_right d n
    ∙ mod-eq_of_lt (d_below i j n placed below)

-- The ids behind the place `start`, and then those up to it.
abbrev pub rotated : Option ℕ → List ℕ → List ℕ
rotated none ids = ids
rotated (some i) ids = drop (suc i) ids ++ take (suc i) ids

-- The place is one of the list.
abbrev pub IsPlace : Option ℕ → List ℕ → Type 0
IsPlace none ids = Unit
IsPlace (some i) ids = i < length ids

module _ (wanted : Exchange → Bool) (exchanges : List (ℕ × Exchange)) where
  -- The first wanted exchange in the order of the ids.
  unfoldable pub first_wanted : List ℕ → Option Exchange
  unfolding candidate_at
  first_wanted [] = none
  first_wanted (id ∷ ids) =
      let rest = first_wanted ids in
      elim (candidate_at wanted exchanges (some id)) [ none ↦ rest | some cand ↦ some cand ]

  first_wanted_miss :
      (id : ℕ) (ids : List ℕ)
      → candidate_at wanted exchanges (some id) ≡ none
      → first_wanted (id ∷ ids) ≡ first_wanted ids
  unfolding first_wanted
  first_wanted_miss id ids miss = rw (first_wanted, miss) refl

  first_wanted_hit :
      (id : ℕ) (ids : List ℕ) (cand : Exchange)
      → candidate_at wanted exchanges (some id) ≡ some cand
      → first_wanted (id ∷ ids) ≡ some cand
  unfolding first_wanted
  first_wanted_hit id ids cand hit = rw (first_wanted, hit) refl

  -- A loop over places whose ids are those of a list searches the list.
  search_from_list :
      (ids : List ℕ) (start : Option ℕ) (l : List ℕ) (k : ℕ)
      → ((j : ℕ) → j < length l → get_elem? ids (offset start (k + j) % length ids) ≡ get_elem? l j)
      → search_from wanted exchanges ids start (length l) k ≡ first_wanted l
  unfolding search_from first_wanted get_elem?
  search_from_list ids start [] k same = refl
  search_from_list ids start (id ∷ l) k same =
      let here =
        ap (λ m. get_elem? ids (offset start m % length ids)) (add_zero k) ∙ same 0 (omega arith) in
      let ih = search_from_list ids start l (k + 1) (λ j below.
        ap (λ m. get_elem? ids (offset start m % length ids)) (add_one_add k j)
        ∙ same (suc j) (omega arith)) in
      elim (Option-cases (candidate_at wanted exchanges (some id))) [
        | inl miss ↦
            search_from_miss wanted exchanges ids start (length l) k
              (ap (candidate_at wanted exchanges) here ∙ miss)
            ∙ ih
            ∙ sym (first_wanted_miss id l miss)
        | inr (cand, hit) ↦
            search_from_hit wanted exchanges ids start (length l) k cand
              (ap (candidate_at wanted exchanges) here ∙ hit)
            ∙ sym (first_wanted_hit id l cand hit)
      ]

length-rotated : (start : Option ℕ) (ids : List ℕ) → length (rotated start ids) ≡ length ids
length-rotated none ids = refl
length-rotated (some i) ids = omega (
  arith,
  length-append (drop (suc i) ids) (take (suc i) ids),
  length-drop (suc i) ids,
  length-take (suc i) ids,
)

rotated_place :
    (ids : List ℕ) (i j : ℕ)
    → i < length ids
    → j < length ids
    → get_elem? ids ((i + (1 + j)) % length ids) ≡ get_elem? (rotated (some i) ids) j
rotated_place ids i j placed below = elim (lt_or_le (i + (1 + j)) (length ids)) [
  | inl inside ↦
      ap (get_elem? ids) (mod-eq_of_lt inside ∙ i_behind i j)
      ∙ sym (get_elem?-drop ids (suc i) j)
      ∙ sym (
          get_elem?-append_left (drop (suc i) ids) (take (suc i) ids) j
            (omega (arith, length-drop (suc i) ids)))
  | inr around ↦
      let d = i + (1 + j) - length ids in
      ap (get_elem? ids) (past_end i j (length ids) placed below around)
      ∙ sym (get_elem?-take ids (suc i) d (omega arith))
      ∙ sym (get_elem?-append_right (drop (suc i) ids) (take (suc i) ids) d)
      ∙ ap (get_elem? (rotated (some i) ids)) (omega (arith, length-drop (suc i) ids))
]

first_place : (j n : ℕ) → j < n → (1 + j - 1) % n ≡ j
first_place j n below = ap (λ m. m % n) (omega arith) ∙ mod-eq_of_lt below

rotated_from :
    (ids : List ℕ) (start : Option ℕ)
    → IsPlace start ids
    → (j : ℕ) → j < length (rotated start ids)
    → get_elem? ids (offset start (1 + j) % length ids) ≡ get_elem? (rotated start ids) j
unfolding offset
rotated_from ids none placed j below = ap (get_elem? ids) (first_place j (length ids) below)
rotated_from ids (some i) placed j below =
    rotated_place ids i j placed (omega (arith, length-rotated (some i) ids))

IsPlace-behind :
    (start : Option ℕ) (x : ℕ) (ids : List ℕ)
    → IsPlace start ids
    → IsPlace (Option.map suc start) (x ∷ ids)
IsPlace-behind none x ids placed = tt
IsPlace-behind (some i) x ids placed = omega arith

index_of_id-IsPlace : (id : ℕ) (ids : List ℕ) → IsPlace (index_of_id id ids) ids
unfolding index_of_id
index_of_id-IsPlace id [] = tt
index_of_id-IsPlace id (x ∷ ids) = elim (Bool-cases (x == id)) [
  | inl same ↦ rw (same) (omega arith)
  | inr other ↦
      rw (other) (IsPlace-behind (index_of_id id ids) (x) ids (index_of_id-IsPlace id ids))
]

-- The exchange that `onNextMatching` and `onNextInTrace` select is the first wanted one of the
-- visible ids behind that of the current exchange and then of those up to it, its own the last; if
-- the current exchange is not visible, the first wanted one of all. Without one nothing changes.
pub select_next_lem :
    (rt : Runtime) (wanted : Exchange → Bool) (cur : Exchange) (s : StoreState)
    → select_next rt wanted cur s
      ≡ select_exchange rt
          (first_wanted wanted s.table.exchanges
            (rotated (index_of_id cur.id (select_visible_ids s)) (select_visible_ids s)))
          s
unfolding select_next
select_next_lem rt wanted cur s =
    let ids = select_visible_ids s in
    let start = index_of_id cur.id ids in
    ap (λ found. select_exchange rt found s)
      (ap (λ n. search_from wanted s.table.exchanges ids start n 1) (sym (length-rotated start ids))
        ∙ search_from_list wanted s.table.exchanges ids start (rotated start ids) 1
            (rotated_from ids start (index_of_id-IsPlace cur.id ids)))
