-- ===== src/Traces/Members.antt =====
-- The map of the members of each trace in ui/src/components/trace-group.tsx.
use mathlib.Core.List.{foldl}
use protospy.Prelude.{
  ◌≡◌, refl, sym, ap, ◌∙◌, Bool, true, false, none, some, List, [], ◌∷◌, ◌++◌, Text, text_eq,
  filter, append_assoc, append-nil, if◌then◌else◌, Option-cases, Bool-cases, inl, inr,
}
use protospy.Prelude.StringLaws.{text_eq_refl, text_eq_sound}
use protospy.Store.Types.{Exchange}
use protospy.Traces.Groups.{
  get_members, push_member, collect_member, collect_members, members_or_none,
}

-- The exchange belongs to the trace.
unfoldable pub is_member : Text → Exchange → Bool
is_member t x = elim x.trace_id [ none ↦ false | some u ↦ text_eq u t ]

-- The members of an id in the map, none for an id that is not there.
abbrev pub listed : Text → List (Text × List Exchange) → List Exchange
listed t by_trace = members_or_none (get_members t by_trace)

pub true_or_false : (true ≡ false) → ⊥
true_or_false h = cc

listed_hit :
    (t v : Text) (members : List Exchange) (by_trace : List (Text × List Exchange))
    → text_eq v t ≡ true
    → listed t ((v, members) ∷ by_trace) ≡ members
unfolding get_members members_or_none
listed_hit t v members by_trace same = rw (get_members, same) refl

listed_miss :
    (t v : Text) (members : List Exchange) (by_trace : List (Text × List Exchange))
    → text_eq v t ≡ false
    → listed t ((v, members) ∷ by_trace) ≡ listed t by_trace
unfolding get_members
listed_miss t v members by_trace other = rw (get_members, other) refl

-- What one exchange of the trace `u` adds to the members of the trace `t`.
abbrev added : Text → Text → Exchange → List Exchange
added t u x = if text_eq u t then x ∷ [] else []

push_member_hit :
    (u v : Text) (x : Exchange) (members : List Exchange) (by_trace : List (Text × List Exchange))
    → text_eq v u ≡ true
    → push_member u x ((v, members) ∷ by_trace) ≡ (v, members ++ x ∷ []) ∷ by_trace
unfolding push_member
push_member_hit u v x members by_trace same = rw (push_member, same) refl

push_member_miss :
    (u v : Text) (x : Exchange) (members : List Exchange) (by_trace : List (Text × List Exchange))
    → text_eq v u ≡ false
    → push_member u x ((v, members) ∷ by_trace) ≡ (v, members) ∷ push_member u x by_trace
unfolding push_member
push_member_miss u v x members by_trace other = rw (push_member, other) refl

-- Two ids that are one and the same, and two that are not, against a third.
text_eq_left : (u v t : Text) → text_eq v u ≡ true → text_eq u t ≡ text_eq v t
text_eq_left u v t same = ap (λ w. text_eq w t) (sym (text_eq_sound v u same))

text_eq_apart : (u v t : Text) → text_eq v u ≡ false → text_eq v t ≡ true → text_eq u t ≡ false
text_eq_apart u v t other same = elim (Bool-cases (text_eq u t)) [
  | inl both ↦ absurd (
      true_or_false (
        sym (text_eq_refl t)
        ∙ ap (λ w. text_eq w t) (sym (text_eq_sound v t same))
        ∙ ap (text_eq v) (sym (text_eq_sound u t both))
        ∙ other))
  | inr apart ↦ apart
]

-- Equal parts make equal wholes.
ap2 : {xs ys us vs : List Exchange} → xs ≡ us → ys ≡ vs → xs ++ ys ≡ us ++ vs
ap2 h k = cc

listed-push_first :
    (t u : Text) (x : Exchange) → listed t (push_member u x []) ≡ listed t [] ++ added t u x
unfolding push_member get_members members_or_none
listed-push_first t u x = elim (Bool-cases (text_eq u t)) [
  | inl same ↦ rw (same) refl
  | inr other ↦ rw (other) refl
]

listed_extended :
    (t u v : Text) (x : Exchange) (members : List Exchange) (by_trace : List (Text × List Exchange))
    → text_eq v u ≡ true
    → listed t ((v, members ++ x ∷ []) ∷ by_trace)
      ≡ listed t ((v, members) ∷ by_trace) ++ added t u x
listed_extended t u v x members by_trace same = elim (Bool-cases (text_eq v t)) [
  | inl here ↦
      listed_hit t v (members ++ x ∷ []) by_trace here
      ∙ sym (
          ap2 (listed_hit t v members by_trace here)
            (ap (λ b. if b then x ∷ [] else []) (text_eq_left u v t same ∙ here)))
  | inr there ↦
      listed_miss t v (members ++ x ∷ []) by_trace there
      ∙ sym (append-nil (listed t by_trace))
      ∙ sym (
          ap2 (listed_miss t v members by_trace there)
            (ap (λ b. if b then x ∷ [] else []) (text_eq_left u v t same ∙ there)))
]

listed-push_member :
    (t u : Text) (x : Exchange) (by_trace : List (Text × List Exchange))
    → listed t (push_member u x by_trace) ≡ listed t by_trace ++ added t u x
listed-push_member t u x [] = listed-push_first t u x
listed-push_member t u x ((v, members) ∷ by_trace) = elim (Bool-cases (text_eq v u)) [
  | inl same ↦
      ap (listed t) (push_member_hit u v x members by_trace same)
      ∙ listed_extended t u v x members by_trace same
  | inr other ↦
      ap (listed t) (push_member_miss u v x members by_trace other)
      ∙ elim (Bool-cases (text_eq v t))
          as (λ b.
            listed t ((v, members) ∷ push_member u x by_trace)
            ≡ listed t ((v, members) ∷ by_trace) ++ added t u x) [
              | inl here ↦
                  listed_hit t v members (push_member u x by_trace) here
                  ∙ sym (append-nil members)
                  ∙ sym (
                      ap2 (listed_hit t v members by_trace here)
                        (ap (λ b. if b then x ∷ [] else []) (text_eq_apart u v t other here)))
              | inr there ↦
                  listed_miss t v members (push_member u x by_trace) there
                  ∙ listed-push_member t u x by_trace
                  ∙ ap (λ l. l ++ added t u x) (sym (listed_miss t v members by_trace there))
            ]
]

one_or_none :
    (b : Bool) (x : Exchange) (xs : List Exchange)
    → (if b then x ∷ [] else []) ++ xs ≡ (if b then x ∷ xs else xs)
one_or_none true x xs = refl
one_or_none false x xs = refl

pub is_member_alone : (t : Text) (x : Exchange) → x.trace_id ≡ none → is_member t x ≡ false
unfolding is_member
is_member_alone t x alone =
    ap (λ o. elim o as (λ p. Bool) [ none ↦ false | some u ↦ text_eq u t ]) alone

pub is_member_of : (t u : Text) (x : Exchange) → x.trace_id ≡ some u → is_member t x ≡ text_eq u t
unfolding is_member
is_member_of t u x in_trace =
    ap (λ o. elim o as (λ p. Bool) [ none ↦ false | some v ↦ text_eq v t ]) in_trace

module _ (x : Exchange) (by_trace : List (Text × List Exchange)) where
  collect_member_alone : x.trace_id ≡ none → collect_member by_trace x ≡ by_trace
  unfolding collect_member
  collect_member_alone alone =
      ap
        (λ o. elim o as (λ p. List (Text × List Exchange)) [
          | none ↦ by_trace
          | some t ↦ push_member t x by_trace
        ])
        alone

  collect_member_of :
      (u : Text) → x.trace_id ≡ some u → collect_member by_trace x ≡ push_member u x by_trace
  unfolding collect_member
  collect_member_of u in_trace =
      ap
        (λ o. elim o as (λ p. List (Text × List Exchange)) [
          | none ↦ by_trace
          | some t ↦ push_member t x by_trace
        ])
        in_trace

listed-collect_member :
    (t : Text) (x : Exchange) (by_trace : List (Text × List Exchange))
    → listed t (collect_member by_trace x)
      ≡ listed t by_trace ++ (if is_member t x then x ∷ [] else [])
listed-collect_member t x by_trace = elim (Option-cases x.trace_id) [
  | inl alone ↦
      ap (listed t) (collect_member_alone x by_trace alone)
      ∙ sym (append-nil (listed t by_trace))
      ∙ ap (λ b. listed t by_trace ++ (if b then x ∷ [] else [])) (sym (is_member_alone t x alone))
  | inr (u, in_trace) ↦
      ap (listed t) (collect_member_of x by_trace u in_trace)
      ∙ listed-push_member t u x by_trace
      ∙ ap (λ b. listed t by_trace ++ (if b then x ∷ [] else []))
          (sym (is_member_of t u x in_trace))
]

listed-collected :
    (t : Text) (xs : List Exchange) (by_trace : List (Text × List Exchange))
    → listed t (foldl collect_member by_trace xs) ≡ listed t by_trace ++ filter (is_member t) xs
listed-collected t [] by_trace = sym (append-nil (listed t by_trace))
listed-collected t (x ∷ xs) by_trace =
    listed-collected t xs (collect_member by_trace x)
    ∙ ap (λ l. l ++ filter (is_member t) xs) (listed-collect_member t x by_trace)
    ∙ append_assoc (listed t by_trace) (if is_member t x then x ∷ [] else [])
        (filter (is_member t) xs)
    ∙ ap (λ l. listed t by_trace ++ l) (one_or_none (is_member t x) x (filter (is_member t) xs))

-- The members of a trace are the exchanges with its id, in their order.
pub listed-collect_members :
    (t : Text) (xs : List Exchange) → listed t (collect_members xs) ≡ filter (is_member t) xs
unfolding collect_members get_members members_or_none
listed-collect_members t xs = listed-collected t xs []
