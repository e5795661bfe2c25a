-- ===== src/Store/Evict/Steps.antt =====
-- One eviction as a step on tables, and what any sequence of such steps keeps.
use protospy.Prelude.{
  ℕ, zero, suc, ◌+◌, ◌<◌, ◌≡◌, refl, sym, ap, ◌∙◌, ◌≢◌, inl, inr, true, false, Option, none, some,
  List, [], ◌∷◌, length, All, arith, ◌==◌, Bool-cases, if◌then◌else◌,
}
use mathlib.Core.Option
use protospy.JsMap.{get, delete, keys, get-delete_ne}
use protospy.Store.Reducer.{Table}
use protospy.Store.Consistency.{Distinct, IsConsistent}
use protospy.Store.Evict.{is_evictable, oldest_evictable, id_at, splice, drop_at}

-- The list without its first occurrence of a number.
unfoldable pub erase : ℕ → List ℕ → List ℕ
erase x [] = []
erase x (y ∷ ys) = if y == x then ys else y ∷ erase x ys

pub keys-delete {ℓ} : {V : Type ℓ} (k : ℕ) (m : List (ℕ × V)) → keys (delete k m) ≡ erase k (keys m)
unfolding delete erase
keys-delete k [] = refl
keys-delete k ((j, v) ∷ m) = ground (arith, keys-delete k m)

All-erase {κ} : (P : ℕ → Type κ) (x : ℕ) (xs : List ℕ) → All P xs → All P (erase x xs)
unfolding erase
All-erase P x [] h = h
All-erase P x (y ∷ ys) h = elim (Bool-cases (y == x)) [
  | inl e ↦ rw e h.1
  | inr e ↦ rw e (h.0, All-erase P x ys h.1)
]

Distinct-erase : (x : ℕ) (xs : List ℕ) → Distinct xs → Distinct (erase x xs)
unfolding erase
Distinct-erase x [] h = h
Distinct-erase x (y ∷ ys) h = elim (Bool-cases (y == x)) [
  | inl e ↦ rw e h.1
  | inr e ↦ rw e (All-erase (λ z. z ≢ y) x ys h.0, Distinct-erase x ys h.1)
]

All-id_at {κ} : (P : ℕ → Type κ) (i : ℕ) (xs : List ℕ) → i < length xs → All P xs → P (id_at i xs)
unfolding id_at
All-id_at P i [] h a = elim h [ ]
All-id_at P zero (x ∷ xs) h a = a.0
All-id_at P (suc i) (x ∷ xs) h a = All-id_at P i xs (omega arith) a.1

-- Cutting out the index of an id is erasing the id.
splice-erase :
    (i : ℕ) (ids : List ℕ) → i < length ids → Distinct ids → splice i ids ≡ erase (id_at i ids) ids
unfolding splice erase id_at
splice-erase i [] h d = refl
splice-erase zero (x ∷ xs) h d = ground arith
splice-erase (suc i) (x ∷ xs) h d =
    ground
      (arith, splice-erase i xs (omega arith) d.1, All-id_at (λ y. y ≢ x) i xs (omega arith) d.0)

pub length-splice : (i : ℕ) (ids : List ℕ) → i < length ids → length (splice i ids) + 1 ≡ length ids
unfolding splice
length-splice i [] h = elim h [ ]
length-splice zero (x ∷ xs) h = omega arith
length-splice (suc i) (x ∷ xs) h = omega (arith, length-splice i xs (omega arith))

-- The id found lies in the array and is not the protected one.
pub oldest_evictable_lem :
    (p : Option ℕ) (ids : List ℕ) (i : ℕ)
    → oldest_evictable p ids ≡ some i
    → (i < length ids) × (is_evictable p (id_at i ids) ≡ true)
unfolding oldest_evictable id_at
oldest_evictable_lem p [] i h = ground arith
oldest_evictable_lem p (x ∷ xs) i h = elim (Bool-cases (is_evictable p x)) [
  | inl e ↦ let at : 0 ≡ i = ground arith in rw (← at) (omega arith, e)
  | inr e ↦
      let (j, found, same) = (Option.map-eq-some_iff _ _).0 (rw e at h) in
      let (inside, free) = oldest_evictable_lem p xs j found in rw (← same) (omega arith, free)
]

-- Nothing is found only where every id is the protected one.
pub oldest_evictable-none :
    (p : Option ℕ) (ids : List ℕ)
    → oldest_evictable p ids ≡ none
    → All (λ id. is_evictable p id ≡ false) ids
unfolding oldest_evictable
oldest_evictable-none p [] h = tt
oldest_evictable-none p (x ∷ xs) h = (ground arith, oldest_evictable-none p xs (ground arith))

-- One step takes out the oldest id that is not protected; a run is any number of steps.
pub data Evicts (p : Option ℕ) : Table → Table → Type 0 where
  done : {t : Table} → Evicts p t t
  step :
      {t u : Table} (i : ℕ)
      → oldest_evictable p t.ids ≡ some i
      → Evicts p (drop_at i t) u
      → Evicts p t u

pub drop_at-IsConsistent :
    (i : ℕ) (t : Table) → i < length t.ids → IsConsistent t → IsConsistent (drop_at i t)
unfolding drop_at
drop_at-IsConsistent i t h c =
    let cut = splice-erase i t.ids h c.distinct in
    record {
      same_ids =
          keys-delete (id_at i t.ids) t.exchanges ∙ ap (erase (id_at i t.ids)) c.same_ids ∙ sym cut;
      distinct = rw cut (Distinct-erase (id_at i t.ids) t.ids c.distinct);
    }

pub Evicts-IsConsistent :
    {p : Option ℕ} {t u : Table} → Evicts p t u → IsConsistent t → IsConsistent u
Evicts-IsConsistent done c = c
Evicts-IsConsistent {p} (step {t} i e r) c =
    Evicts-IsConsistent r (drop_at-IsConsistent i t (oldest_evictable_lem p t.ids i e).0 c)

ne_of_is_evictable : (x id : ℕ) → is_evictable (some x) id ≡ true → x ≢ id
unfolding is_evictable
ne_of_is_evictable x id h = ground arith

-- The protected exchange is there after the run as it was before.
pub Evicts-get_protected :
    {x : ℕ} {t u : Table} → Evicts (some x) t u → get x u.exchanges ≡ get x t.exchanges
unfolding drop_at
Evicts-get_protected done = refl
Evicts-get_protected {x} (step {t} i e r) =
    Evicts-get_protected r
    ∙ get-delete_ne (id_at i t.ids) x t.exchanges
        (ne_of_is_evictable x (id_at i t.ids) (oldest_evictable_lem (some x) t.ids i e).1)

-- The ids without the first `n` that are not protected.
unfoldable pub drop_evictable : Option ℕ → ℕ → List ℕ → List ℕ
drop_evictable p zero ids = ids
drop_evictable p (suc n) [] = []
drop_evictable p (suc n) (id ∷ ids) = elim (is_evictable p id) [
  | true ↦ drop_evictable p n ids
  | false ↦ id ∷ drop_evictable p (suc n) ids
]

splice-drop_evictable :
    (p : Option ℕ) (ids : List ℕ) (i : ℕ)
    → oldest_evictable p ids ≡ some i
    → splice i ids ≡ drop_evictable p 1 ids
unfolding oldest_evictable splice drop_evictable
splice-drop_evictable p [] i h = refl
splice-drop_evictable p (x ∷ xs) i h = elim (Bool-cases (is_evictable p x)) [
  | inl e ↦ let at : 0 ≡ i = ground arith in rw (← at, e, drop_evictable) refl
  | inr e ↦
      let (j, found, same) = (Option.map-eq-some_iff _ _).0 (rw e at h) in
      rw (← same, e, drop_evictable) (ap (◌∷◌ x) (splice-drop_evictable p xs j found))
]

drop_evictable_free :
    (p : Option ℕ) (n x : ℕ) (xs : List ℕ)
    → is_evictable p x ≡ true
    → drop_evictable p (suc n) (x ∷ xs) ≡ drop_evictable p n xs
unfolding drop_evictable
drop_evictable_free p n x xs e = rw (e, drop_evictable) refl

drop_evictable_kept :
    (p : Option ℕ) (n x : ℕ) (xs : List ℕ)
    → is_evictable p x ≡ false
    → drop_evictable p (suc n) (x ∷ xs) ≡ x ∷ drop_evictable p (suc n) xs
unfolding drop_evictable
drop_evictable_kept p n x xs e = rw (e, drop_evictable) refl

drop_evictable-zero : (p : Option ℕ) (xs : List ℕ) → drop_evictable p 0 xs ≡ xs
unfolding drop_evictable
drop_evictable-zero p xs = refl

drop_evictable-nil : (p : Option ℕ) (n : ℕ) → drop_evictable p n [] ≡ []
unfolding drop_evictable
drop_evictable-nil p zero = refl
drop_evictable-nil p (suc n) = refl

drop_evictable-drop_evictable :
    (p : Option ℕ) (n : ℕ) (ids : List ℕ)
    → drop_evictable p n (drop_evictable p 1 ids) ≡ drop_evictable p (suc n) ids
drop_evictable-drop_evictable p n [] = simp drop_evictable-nil
drop_evictable-drop_evictable p zero (x ∷ xs) = drop_evictable-zero p _
drop_evictable-drop_evictable p (suc n) (x ∷ xs) = elim (Bool-cases (is_evictable p x)) [
  | inl e ↦ rw (
    drop_evictable_free p 0 x xs e,
    drop_evictable_free p (suc n) x xs e,
    drop_evictable-zero p xs,
  )
  | inr e ↦ rw (
    drop_evictable_kept p 0 x xs e,
    drop_evictable_kept p (suc n) x xs e,
    drop_evictable_kept p n x (drop_evictable p 1 xs) e,
    drop_evictable-drop_evictable p (suc n) xs,
  )
]

-- A run takes out the oldest ids that are not protected, in their order, and moves no other.
pub Evicts-oldest_first :
    {p : Option ℕ} {t u : Table} → Evicts p t u → (n : ℕ) × (u.ids ≡ drop_evictable p n t.ids)
unfolding drop_at drop_evictable
Evicts-oldest_first done = (0, refl)
Evicts-oldest_first {p} (step {t} {u} i e r) =
    let (n, same) = Evicts-oldest_first r in
    (
      suc n,
      same
          ∙ ap (drop_evictable p n) (splice-drop_evictable p t.ids i e)
          ∙ drop_evictable-drop_evictable p n t.ids,
    )
