-- ===== src/Traces/Depth.antt =====
-- The lanes of ui/src/components/trace-rail.tsx are no more than the intervals that share a row.
use mathlib.Core.List.{foldl}
use protospy.Prelude.{
  ℕ, zero, suc, ◌+◌, ◌≤◌, ◌≡◌, refl, ◌&&◌, none, some, List, [], ◌∷◌, ◌++◌, All, All-append, length,
  length-append, leb, if◌then◌else◌, arith, inl, inr, le→leb,
}
use protospy.Traces.Lanes.{
  Span, Interval, Packed, find_lane, set_end, place_span, place_spans, lane_count,
}
use protospy.Traces.Packing.{
  length-set_end, IsForward, find_lane-cases, place_new, place_old, AllReach,
}
use protospy.Traces.Spans.{IsSorted}

-- How many intervals cover a row.
unfoldable pub covering : ℕ → List Interval → ℕ
covering row [] = 0
covering row (p ∷ ps) =
    (if leb p.span.first row && leb row p.span.last then 1 else 0) + covering row ps

-- How many intervals reach a row, and how many ends do.
unfoldable reaching : ℕ → List Interval → ℕ
reaching row [] = 0
reaching row (p ∷ ps) = (if leb row p.span.last then 1 else 0) + reaching row ps

unfoldable ends_reaching : ℕ → List ℕ → ℕ
ends_reaching row [] = 0
ends_reaching row (e ∷ ends) = (if leb row e then 1 else 0) + ends_reaching row ends

covering-append :
    (row : ℕ) (ps qs : List Interval) → covering row (ps ++ qs) ≡ covering row ps + covering row qs
unfolding covering
covering-append row [] qs = omega arith
covering-append row (p ∷ ps) qs = omega (arith, covering-append row ps qs)

reaching-append :
    (row : ℕ) (ps qs : List Interval) → reaching row (ps ++ qs) ≡ reaching row ps + reaching row qs
unfolding reaching
reaching-append row [] qs = omega arith
reaching-append row (p ∷ ps) qs = omega (arith, reaching-append row ps qs)

ends_reaching-append :
    (row : ℕ) (es fs : List ℕ)
    → ends_reaching row (es ++ fs) ≡ ends_reaching row es + ends_reaching row fs
unfolding ends_reaching
ends_reaching-append row [] fs = omega arith
ends_reaching-append row (e ∷ es) fs = omega (arith, ends_reaching-append row es fs)

ends_reaching-set_end :
    (row lane last : ℕ) (ends : List ℕ)
    → ends_reaching row (set_end lane last ends)
      ≤ ends_reaching row ends + (if leb row last then 1 else 0)
unfolding ends_reaching set_end
ends_reaching-set_end row lane last [] = omega arith
ends_reaching-set_end row zero last (e ∷ ends) = ground arith
ends_reaching-set_end row (suc lane) last (e ∷ ends) =
    omega (arith, ends_reaching-set_end row lane last ends)

ends_reaching-all :
    (row : ℕ) (ends : List ℕ) → AllReach row ends → ends_reaching row ends ≡ length ends
unfolding ends_reaching
ends_reaching-all row [] h = refl
ends_reaching-all row (e ∷ ends) h =
    rw (le→leb row e h.0) (omega (arith, ends_reaching-all row ends h.1))

-- Where all intervals begin at or before a row, those that reach it cover it.
reaching-covering :
    (row : ℕ) (ps : List Interval)
    → All (λ p. p.span.first ≤ row) ps
    → reaching row ps ≤ covering row ps
unfolding reaching covering
reaching-covering row [] h = omega arith
reaching-covering row (p ∷ ps) h =
    rw (le→leb p.span.first row h.0) (omega (arith, reaching-covering row ps h.1))

covering_own :
    (s : Span) (lane : ℕ)
    → s.first ≤ s.last
    → covering s.first (record { span = s; lane = lane } ∷ []) ≡ 1
unfolding covering
covering_own s lane h = ground arith

-- What holds behind every round: no row is reached by more ends than intervals, and there is a row
-- that as many intervals cover as there are lanes.
record IsTight (p : Packed) : Type 0 where
  reached : (row : ℕ) → ends_reaching row p.lane_ends ≤ reaching row p.intervals
  row : ℕ
  covered : lane_count p ≤ covering row p.intervals

abbrev BeginBy : ℕ → List Interval → Type 0
BeginBy row ps = All (λ p. p.span.first ≤ row) ps

place_new-IsTight :
    (p : Packed) (s : Span)
    → s.first ≤ s.last
    → BeginBy s.first p.intervals
    → find_lane s.first p.lane_ends ≡ none
    → AllReach s.first p.lane_ends
    → IsTight p
    → IsTight (place_span p s)
unfolding covering reaching ends_reaching
place_new-IsTight p s forward begun none' later h =
    let q : Interval = record { span = s; lane = length p.lane_ends } in
    rw (place_new p s none') (record {
      reached = λ row. omega (
        arith,
        h.reached row,
        ends_reaching-append row p.lane_ends (s.last ∷ []),
        reaching-append row p.intervals (q ∷ []),
      );
      row = s.first;
      covered = omega (
        arith,
        h.reached s.first,
        ends_reaching-all s.first p.lane_ends later,
        reaching-covering s.first p.intervals begun,
        covering-append s.first p.intervals (q ∷ []),
        covering_own s (length p.lane_ends) forward,
        length-append p.lane_ends (s.last ∷ []),
      );
    })

place_old-IsTight :
    (p : Packed) (s : Span) (lane : ℕ)
    → find_lane s.first p.lane_ends ≡ some lane
    → IsTight p
    → IsTight (place_span p s)
unfolding covering reaching ends_reaching
place_old-IsTight p s lane found h =
    let q : Interval = record { span = s; lane = lane } in
    rw (place_old p s lane found) (record {
      reached = λ row. omega (
        arith,
        h.reached row,
        ends_reaching-set_end row lane s.last p.lane_ends,
        reaching-append row p.intervals (q ∷ []),
      );
      row = h.row;
      covered = omega (
        arith,
        h.covered,
        length-set_end lane s.last p.lane_ends,
        covering-append h.row p.intervals (q ∷ []),
      );
    })

-- Behind a round the intervals begin by the row that the next span begins at.
place_span-BeginBy :
    (p : Packed) (s : Span) (row : ℕ)
    → s.first ≤ row
    → BeginBy row p.intervals
    → BeginBy row (place_span p s).intervals
place_span-BeginBy p s row le h = elim (find_lane-cases s.first p.lane_ends) [
  | inl (none', later) ↦
      rw (place_new p s none') (All-append (λ q. q.span.first ≤ row) p.intervals _ h (le, tt))
  | inr (lane, found, exists, free) ↦
      rw (place_old p s lane found) (All-append (λ q. q.span.first ≤ row) p.intervals _ h (le, tt))
]

place_span-IsTight :
    (p : Packed) (s : Span)
    → s.first ≤ s.last
    → BeginBy s.first p.intervals
    → IsTight p
    → IsTight (place_span p s)
place_span-IsTight p s forward begun h = elim (find_lane-cases s.first p.lane_ends) [
  | inl (none', later) ↦ place_new-IsTight p s forward begun none' later h
  | inr (lane, found, exists, free) ↦ place_old-IsTight p s lane found h
]

-- The intervals so far begin by the rows that all further spans begin at.
abbrev Precede : List Interval → List Span → Type 0
Precede ps spans = All (λ t. BeginBy t.first ps) spans

Precede-next :
    (p : Packed) (s : Span) (spans : List Span)
    → All (λ t. s.first ≤ t.first) spans
    → Precede p.intervals spans
    → Precede (place_span p s).intervals spans
Precede-next p s [] le h = tt
Precede-next p s (t ∷ spans) le h =
    (place_span-BeginBy p s t.first le.0 h.0, Precede-next p s spans le.1 h.1)

all-Precede : (spans : List Span) → Precede [] spans
all-Precede [] = tt
all-Precede (s ∷ spans) = (tt, all-Precede spans)

start-IsTight : IsTight (record { intervals = []; lane_ends = [] })
unfolding ends_reaching reaching
start-IsTight = record { reached = λ row. omega arith; row = 0; covered = omega arith }

foldl-IsTight :
    (spans : List Span) (p : Packed)
    → All IsForward spans
    → IsSorted spans
    → Precede p.intervals spans
    → IsTight p
    → IsTight (foldl place_span p spans)
foldl-IsTight [] p f sorted before h = h
foldl-IsTight (s ∷ spans) p f sorted before h =
    foldl-IsTight spans (place_span p s) f.1 sorted.1 (Precede-next p s spans sorted.0 before.1)
      (place_span-IsTight p s f.0 before.0 h)

-- Some row is covered by at least as many intervals as there are lanes.
pub place_spans_depth :
    (spans : List Span)
    → All IsForward spans
    → IsSorted spans
    → (row : ℕ) × (lane_count (place_spans spans) ≤ covering row (place_spans spans).intervals)
unfolding place_spans
place_spans_depth spans f sorted =
    let start : Packed = record { intervals = []; lane_ends = [] } in
    let tight = foldl-IsTight spans start f sorted (all-Precede spans) start-IsTight in
    (tight.row, tight.covered)
