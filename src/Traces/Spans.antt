-- ===== src/Traces/Spans.antt =====
-- The spans that ui/src/components/trace-rail.tsx packs: each runs forward, and they are sorted.
use protospy.Prelude.{
  ℕ, suc, ◌≤◌, ◌<◌, none, some, Option, List, [], ◌∷◌, Text, text_eq, All, All-weaken, ltb, leb,
  arith, inl, inr, Bool-cases, leb→le,
}
use protospy.Traces.Lanes.{
  Span, extend_span, add_row, collect_spans, shared_spans, insert_span, sort_spans,
}
use protospy.Traces.Packing.{IsForward}

-- A span seen before a row: it runs forward and ends before the row.
pub record IsSeen (i : ℕ) (s : Span) : Type 0 where
  pub forward : s.first ≤ s.last
  pub before : s.last < i

IsSeen-suc : (i : ℕ) (s : Span) → IsSeen i s → IsSeen (suc i) s
IsSeen-suc i s h = record { forward = h.forward; before = omega (arith, h.before) }

IsSeen-extend : (i : ℕ) (s : Span) → IsSeen i s → IsSeen (suc i) (extend_span i s)
IsSeen-extend i s h = record { forward = omega (arith, h.forward, h.before); before = omega arith }

AreSeen-suc : (i : ℕ) (spans : List Span) → All (IsSeen i) spans → All (IsSeen (suc i)) spans
AreSeen-suc i spans h = All-weaken {P = IsSeen i} {Q = IsSeen (suc i)} (IsSeen-suc i) spans h

add_row-AreSeen :
    (id : Text) (i : ℕ) (spans : List Span)
    → All (IsSeen i) spans
    → All (IsSeen (suc i)) (add_row id i spans)
unfolding add_row
add_row-AreSeen id i [] h = (record { forward = omega arith; before = omega arith }, tt)
add_row-AreSeen id i (s ∷ spans) h = elim (Bool-cases (text_eq s.trace_id id)) [
  | inl same ↦ rw same (IsSeen-extend i s h.0, AreSeen-suc i spans h.1)
  | inr other ↦ rw other (IsSeen-suc i s h.0, add_row-AreSeen id i spans h.1)
]

collect_spans-IsForward :
    (i : ℕ) (ids : List (Option Text)) (spans : List Span)
    → All (IsSeen i) spans
    → All IsForward (collect_spans i ids spans)
unfolding collect_spans
collect_spans-IsForward i [] spans h =
    All-weaken {P = IsSeen i} {Q = IsForward} (λ s seen. seen.forward) spans h
collect_spans-IsForward i (none ∷ ids) spans h =
    collect_spans-IsForward (suc i) ids spans (AreSeen-suc i spans h)
collect_spans-IsForward i (some [] ∷ ids) spans h =
    collect_spans-IsForward (suc i) ids spans (AreSeen-suc i spans h)
collect_spans-IsForward i (some (c ∷ id) ∷ ids) spans h =
    collect_spans-IsForward (suc i) ids (add_row (c ∷ id) i spans)
      (add_row-AreSeen (c ∷ id) i spans h)

-- What holds of all spans holds of those that are kept.
module _ (P : Span → Type 0) where
  shared_spans-All : (spans : List Span) → All P spans → All P (shared_spans spans)
  unfolding shared_spans
  shared_spans-All [] h = tt
  shared_spans-All (s ∷ spans) h = elim (Bool-cases (ltb 1 s.members)) [
    | inl many ↦ rw many (h.0, shared_spans-All spans h.1)
    | inr one ↦ rw one (shared_spans-All spans h.1)
  ]

  insert_span-All : (s : Span) (spans : List Span) → P s → All P spans → All P (insert_span s spans)
  unfolding insert_span
  insert_span-All s [] p h = (p, tt)
  insert_span-All s (t ∷ spans) p h = elim (Bool-cases (leb s.first t.first)) [
    | inl le ↦ rw le (p, h)
    | inr gt' ↦ rw gt' (h.0, insert_span-All s spans p h.1)
  ]

  sort_spans-All : (spans : List Span) → All P spans → All P (sort_spans spans)
  unfolding sort_spans
  sort_spans-All [] h = tt
  sort_spans-All (s ∷ spans) h = insert_span-All s (sort_spans spans) h.0 (sort_spans-All spans h.1)

-- The spans that are packed.
abbrev pub packed_spans : List (Option Text) → List Span
packed_spans trace_ids = sort_spans (shared_spans (collect_spans 0 trace_ids []))

pub packed_spans-IsForward :
    (trace_ids : List (Option Text)) → All IsForward (packed_spans trace_ids)
packed_spans-IsForward trace_ids =
    let spans = collect_spans 0 trace_ids [] in
    sort_spans-All IsForward (shared_spans spans)
      (shared_spans-All IsForward spans (collect_spans-IsForward 0 trace_ids [] tt))

-- The first rows of the spans never go back.
abbrev pub IsSorted : List Span → Type 0
IsSorted [] = Unit
IsSorted (s ∷ spans) = All (λ t. s.first ≤ t.first) spans × IsSorted spans

insert_span-IsSorted :
    (s : Span) (spans : List Span) → IsSorted spans → IsSorted (insert_span s spans)
unfolding insert_span
insert_span-IsSorted s [] h = (tt, tt)
insert_span-IsSorted s (t ∷ spans) h = elim (Bool-cases (leb s.first t.first)) [
  | inl le ↦
      let before = leb→le s.first t.first le in
      rw le (
        (
          before,
          All-weaken {P = λ u. t.first ≤ u.first} {Q = λ u. s.first ≤ u.first}
              (λ u later. omega (arith, before, later)) spans h.0,
        ),
        h,
      )
  | inr gt' ↦ rw gt' (
    insert_span-All (λ u. t.first ≤ u.first) s spans (ground arith) h.0,
    insert_span-IsSorted s spans h.1,
  )
]

sort_spans-IsSorted : (spans : List Span) → IsSorted (sort_spans spans)
unfolding sort_spans
sort_spans-IsSorted [] = tt
sort_spans-IsSorted (s ∷ spans) =
    insert_span-IsSorted s (sort_spans spans) (sort_spans-IsSorted spans)

pub packed_spans-IsSorted : (trace_ids : List (Option Text)) → IsSorted (packed_spans trace_ids)
packed_spans-IsSorted trace_ids = sort_spans-IsSorted (shared_spans (collect_spans 0 trace_ids []))
