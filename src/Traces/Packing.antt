-- ===== src/Traces/Packing.antt =====
-- What the lanes of ui/src/components/trace-rail.tsx promise.
use mathlib.Core.List.{foldl}
use protospy.Prelude.{
  ℕ, zero, suc, ◌≤◌, ◌<◌, ◌≡◌, ◌≢◌, ◌⊎◌, refl, ap, none, some, List, [], ◌∷◌, ◌++◌, All, All-append,
  All-weaken, length, length-append, ltb, arith, inl, inr, eq_or_ne, Bool-cases, ltb→lt,
}
use protospy.Traces.Lanes.{Span, Interval, Packed, find_lane, set_end, put, place_span, place_spans}

-- Two intervals, the second placed later: not in one lane, or one behind the other.
abbrev pub AreApart : Interval → Interval → Type 0
AreApart p q = (p.lane ≢ q.lane) ⊎ (p.span.last < q.span.first)

-- No two intervals of one lane meet.
abbrev pub ArePacked : List Interval → Type 0
ArePacked [] = Unit
ArePacked (p ∷ ps) = All (λ q. AreApart p q) ps × ArePacked ps

ArePacked-snoc :
    (ps : List Interval) (q : Interval)
    → ArePacked ps
    → All (λ p. AreApart p q) ps
    → ArePacked (ps ++ q ∷ [])
ArePacked-snoc [] q h k = (tt, tt)
ArePacked-snoc (p ∷ ps) q h k =
    (All-append (λ r. AreApart p r) ps (q ∷ []) h.0 (k.0, tt), ArePacked-snoc ps q h.1 k.1)

-- The end of a lane, 0 where there is no such lane.
unfoldable pub end_of : ℕ → List ℕ → ℕ
end_of lane [] = 0
end_of zero (e ∷ ends) = e
end_of (suc lane) (e ∷ ends) = end_of lane ends

-- An interval lies on one of the lanes, and the lane's end is not before its own.
pub record IsOn (ends : List ℕ) (p : Interval) : Type 0 where
  pub lane_exists : p.lane < length ends
  pub ends_later : p.span.last ≤ end_of p.lane ends

-- Every lane reaches the row.
abbrev pub AllReach : ℕ → List ℕ → Type 0
AllReach first ends = All (λ e. first ≤ e) ends

pub find_lane-cases :
    (first : ℕ) (ends : List ℕ)
    → ((find_lane first ends ≡ none) × AllReach first ends)
      ⊎ ((lane : ℕ) × (find_lane first ends ≡ some lane)
          × (lane < length ends)
          × (end_of lane ends < first))
unfolding find_lane end_of
find_lane-cases first [] = inl (refl, tt)
find_lane-cases first (e ∷ ends) = elim (Bool-cases (ltb e first)) [
  | inl free ↦ inr (0, rw free refl, omega arith, ltb→lt e first free)
  | inr taken ↦ elim (find_lane-cases first ends) [
    | inl (none', later) ↦ inl (rw (taken, none') refl, (ground arith, later))
    | inr (lane, found, exists, free) ↦
        inr (suc lane, rw (taken, found) refl, omega (arith, exists), free)
  ]
]

pub length-set_end : (lane last : ℕ) (ends : List ℕ) → length (set_end lane last ends) ≡ length ends
unfolding set_end
length-set_end lane last [] = refl
length-set_end zero last (e ∷ ends) = refl
length-set_end (suc lane) last (e ∷ ends) = ap suc (length-set_end lane last ends)

pub end_of-set_end :
    (lane last : ℕ) (ends : List ℕ)
    → lane < length ends
    → end_of lane (set_end lane last ends) ≡ last
unfolding set_end end_of
end_of-set_end lane last [] h = ground arith
end_of-set_end zero last (e ∷ ends) h = refl
end_of-set_end (suc lane) last (e ∷ ends) h = end_of-set_end lane last ends (omega (arith, h))

end_of-set_end_ne :
    (lane other last : ℕ) (ends : List ℕ)
    → other ≢ lane
    → end_of other (set_end lane last ends) ≡ end_of other ends
unfolding set_end end_of
end_of-set_end_ne lane other last [] h = refl
end_of-set_end_ne zero zero last (e ∷ ends) h = absurd (h refl)
end_of-set_end_ne zero (suc other) last (e ∷ ends) h = refl
end_of-set_end_ne (suc lane) zero last (e ∷ ends) h = refl
end_of-set_end_ne (suc lane) (suc other) last (e ∷ ends) h =
    end_of-set_end_ne lane other last ends (λ same. h (ap suc same))

end_of-append :
    (lane last : ℕ) (ends : List ℕ)
    → lane < length ends
    → end_of lane (ends ++ last ∷ []) ≡ end_of lane ends
unfolding end_of
end_of-append lane last [] h = ground arith
end_of-append zero last (e ∷ ends) h = refl
end_of-append (suc lane) last (e ∷ ends) h = end_of-append lane last ends (omega (arith, h))

end_of-append_last : (last : ℕ) (ends : List ℕ) → end_of (length ends) (ends ++ last ∷ []) ≡ last
unfolding end_of
end_of-append_last last [] = refl
end_of-append_last last (e ∷ ends) = end_of-append_last last ends

-- What holds behind every round: no two intervals of a lane meet, and the ends are known.
pub record IsPacking (p : Packed) : Type 0 where
  pub packed : ArePacked p.intervals
  pub on_lanes : All (λ q. IsOn p.lane_ends q) p.intervals

abbrev pub IsForward : Span → Type 0
IsForward s = s.first ≤ s.last

IsOn-new_lane : (last : ℕ) (ends : List ℕ) (p : Interval) → IsOn ends p → IsOn (ends ++ last ∷ []) p
IsOn-new_lane last ends p h = record {
  lane_exists = omega (arith, h.lane_exists, length-append ends (last ∷ []));
  ends_later = omega (arith, h.ends_later, end_of-append p.lane last ends h.lane_exists);
}

IsOn-old_lane :
    (s : Span) (lane : ℕ) (ends : List ℕ) (p : Interval)
    → IsForward s
    → lane < length ends
    → end_of lane ends < s.first
    → IsOn ends p
    → IsOn (set_end lane s.last ends) p
IsOn-old_lane s lane ends p forward exists free h = record {
  lane_exists = omega (arith, h.lane_exists, length-set_end lane s.last ends);
  ends_later = elim (eq_or_ne p.lane lane) [
    | inl same ↦ omega (
      arith,
      h.ends_later,
      forward,
      free,
      ap (λ l. end_of l ends) same,
      ap (λ l. end_of l (set_end lane s.last ends)) same,
      end_of-set_end lane s.last ends exists,
    )
    | inr other ↦ omega (arith, h.ends_later, end_of-set_end_ne lane p.lane s.last ends other)
  ];
}

apart_new_lane :
    (s : Span) (ends : List ℕ) (p : Interval)
    → IsOn ends p
    → AreApart p (record { span = s; lane = length ends })
apart_new_lane s ends p h = inl (λ same. omega (arith, same, h.lane_exists))

apart_old_lane :
    (s : Span) (lane : ℕ) (ends : List ℕ) (p : Interval)
    → end_of lane ends < s.first
    → IsOn ends p
    → AreApart p (record { span = s; lane = lane })
apart_old_lane s lane ends p free h = elim (eq_or_ne p.lane lane) [
  | inl same ↦
      inr (let bound = h.ends_later in omega (arith, bound, ap (λ l. end_of l ends) same, free))
  | inr other ↦ inl other
]

pub place_new :
    (p : Packed) (s : Span)
    → find_lane s.first p.lane_ends ≡ none
    → place_span p s ≡ put s (length p.lane_ends) (p.lane_ends ++ s.last ∷ []) p
unfolding place_span
place_new p s none' = rw (none', place_span) refl

pub place_old :
    (p : Packed) (s : Span) (lane : ℕ)
    → find_lane s.first p.lane_ends ≡ some lane
    → place_span p s ≡ put s lane (set_end lane s.last p.lane_ends) p
unfolding place_span
place_old p s lane found = rw (found, place_span) refl

put_new_lane :
    (p : Packed) (s : Span)
    → find_lane s.first p.lane_ends ≡ none
    → IsPacking p
    → IsPacking (place_span p s)
put_new_lane p s none' h =
    let ends = p.lane_ends in
    let q : Interval = record { span = s; lane = length ends } in
    let on_q : IsOn (ends ++ s.last ∷ []) q = record {
      lane_exists = omega (arith, length-append ends (s.last ∷ []));
      ends_later = omega (arith, end_of-append_last s.last ends);
    } in
    rw (place_new p s none') (record {
      packed = ArePacked-snoc p.intervals q h.packed (
          All-weaken {P = λ r. IsOn ends r} {Q = λ r. AreApart r q}
            (λ r on. apart_new_lane s ends r on) p.intervals h.on_lanes);
      on_lanes =
          All-append (λ r. IsOn (ends ++ s.last ∷ []) r) p.intervals (q ∷ [])
            (All-weaken {P = λ r. IsOn ends r} {Q = λ r. IsOn (ends ++ s.last ∷ []) r}
              (λ r on. IsOn-new_lane s.last ends r on) p.intervals h.on_lanes)
            (on_q, tt);
    })

put_old_lane :
    (p : Packed) (s : Span) (lane : ℕ)
    → IsForward s
    → find_lane s.first p.lane_ends ≡ some lane
    → lane < length p.lane_ends
    → end_of lane p.lane_ends < s.first
    → IsPacking p
    → IsPacking (place_span p s)
put_old_lane p s lane forward found exists free h =
    let ends = p.lane_ends in
    let q : Interval = record { span = s; lane = lane } in
    let on_q : IsOn (set_end lane s.last ends) q = record {
      lane_exists = omega (arith, exists, length-set_end lane s.last ends);
      ends_later = omega (arith, end_of-set_end lane s.last ends exists);
    } in
    rw (place_old p s lane found) (record {
      packed = ArePacked-snoc p.intervals q h.packed (
          All-weaken {P = λ r. IsOn ends r} {Q = λ r. AreApart r q}
            (λ r on. apart_old_lane s lane ends r free on) p.intervals h.on_lanes);
      on_lanes =
          All-append (λ r. IsOn (set_end lane s.last ends) r) p.intervals (q ∷ [])
            (All-weaken {P = λ r. IsOn ends r} {Q = λ r. IsOn (set_end lane s.last ends) r}
              (λ r on. IsOn-old_lane s lane ends r forward exists free on) p.intervals h.on_lanes)
            (on_q, tt);
    })

place_span-IsPacking :
    (p : Packed) (s : Span) → IsForward s → IsPacking p → IsPacking (place_span p s)
place_span-IsPacking p s forward h = elim (find_lane-cases s.first p.lane_ends) [
  | inl (none', later) ↦ put_new_lane p s none' h
  | inr (lane, found, exists, free) ↦ put_old_lane p s lane forward found exists free h
]

pub foldl-IsPacking :
    (spans : List Span) (p : Packed)
    → All IsForward spans
    → IsPacking p
    → IsPacking (foldl place_span p spans)
foldl-IsPacking [] p f h = h
foldl-IsPacking (s ∷ spans) p f h =
    foldl-IsPacking spans (place_span p s) f.1 (place_span-IsPacking p s f.0 h)

pub place_spans-IsPacking :
    (spans : List Span) → All IsForward spans → IsPacking (place_spans spans)
unfolding place_spans
place_spans-IsPacking spans f =
    foldl-IsPacking spans (record { intervals = []; lane_ends = [] }) f
      (record { packed = tt; on_lanes = tt })
