-- ===== src/Sse/Chunks.antt =====
-- The incremental parser of ui/src/body/sse-stream.ts against the text as a whole: how the text is
-- cut into chunks does not matter.
use mathlib.Core.List.{foldl, flatten}
use native.Mathlib.Decide.{dec_le}
use protospy.Prelude.{
  ℕ, suc, ◌+◌, ◌-◌, ◌≤◌, ◌≡◌, refl, sym, ap, ◌∙◌, ◌≢◌, inl, inr, List, [], ◌∷◌, ◌++◌, append_assoc,
  append-nil, Text, length, drop, length-append, Option-cases, arith, le→leb, lt→not-leb,
}
use protospy.Runtime.{Runtime}
use protospy.Sse.{SseEvent, parse_sse_block, parse_parts}
use protospy.Sse.Stream.{
  SseStreamState, split_blank, init_parts, last_part, add_events, absorb, feed_chunk,
  apply_retention,
}
use protospy.Sse.Splitting.{split_blank-ne-nil, split_blank-append}

module _ (rt : Runtime) where
  pub parse_parts-append :
      (xs ys : List Text) (n : ℕ)
      → ((parse_parts rt (xs ++ ys) n).0
          ≡ (parse_parts rt xs n).0 ++ (parse_parts rt ys (parse_parts rt xs n).1).0)
        × ((parse_parts rt (xs ++ ys) n).1 ≡ (parse_parts rt ys (parse_parts rt xs n).1).1)
  unfolding parse_parts
  parse_parts-append [] ys n = (refl, refl)
  parse_parts-append (x ∷ xs) ys n = elim (Option-cases (parse_sse_block rt x n)) [
    | inl none' ↦ rw (none', parse_parts) (parse_parts-append xs ys n)
    | inr (e, found) ↦
        rw (found, parse_parts)
          (ap (◌∷◌ e) (parse_parts-append xs ys (n + 1)).0, (parse_parts-append xs ys (n + 1)).1)
  ]

  -- The next number is the first one plus the count of the events found.
  pub parse_parts-length :
      (xs : List Text) (n : ℕ) → (parse_parts rt xs n).1 ≡ n + length (parse_parts rt xs n).0
  unfolding parse_parts
  parse_parts-length [] n = omega arith
  parse_parts-length (x ∷ xs) n = elim (Option-cases (parse_sse_block rt x n)) [
    | inl none' ↦ rw (none', parse_parts) (parse_parts-length xs n)
    | inr (e, found) ↦ rw (found, parse_parts) (omega (arith, parse_parts-length xs (n + 1)))
  ]

init_parts-append : (xs ys : List Text) → ys ≢ [] → init_parts (xs ++ ys) ≡ xs ++ init_parts ys
unfolding init_parts
init_parts-append [] ys h = refl
init_parts-append (x ∷ []) [] h = absurd (h refl)
init_parts-append (x ∷ []) (y ∷ ys) h = refl
init_parts-append (x ∷ x' ∷ xs) ys h = ap (◌∷◌ x) (init_parts-append (x' ∷ xs) ys h)

last_part-append : (xs ys : List Text) → ys ≢ [] → last_part (xs ++ ys) ≡ last_part ys
unfolding last_part
last_part-append [] ys h = refl
last_part-append (x ∷ []) [] h = absurd (h refl)
last_part-append (x ∷ []) (y ∷ ys) h = refl
last_part-append (x ∷ x' ∷ xs) ys h = last_part-append (x' ∷ xs) ys h

pub add_events-append : (old new : List SseEvent) → add_events old new ≡ old ++ new
unfolding add_events
add_events-append old [] = sym (append-nil old)
add_events-append old (e ∷ es) = refl

-- Parts that arrive in two steps are absorbed as if they had arrived in one.
absorb-absorb :
    (rt : Runtime) (st : SseStreamState) (ps qs : List Text)
    → qs ≢ []
    → absorb rt (absorb rt st ps) qs ≡ absorb rt st (init_parts ps ++ qs)
unfolding absorb
absorb-absorb rt st ps qs h =
    let both = parse_parts-append rt (init_parts ps) (init_parts qs) st.total_event_count in
    rw
      (
        init_parts-append (init_parts ps) qs h,
        last_part-append (init_parts ps) qs h,
        both.0,
        both.1,
      )
      (simp (add_events-append, append_assoc))

-- Feeding two chunks one after the other is feeding their concatenation.
pub feed_chunk-append :
    (rt : Runtime) (st : SseStreamState) (a b : Text)
    → feed_chunk rt (feed_chunk rt st a) b ≡ feed_chunk rt st (a ++ b)
unfolding feed_chunk
feed_chunk-append rt st a b =
    let ps = split_blank (st.parser_remainder ++ a) in
    absorb-absorb rt st ps _ (split_blank-ne-nil (last_part ps ++ b))
    ∙ ap (absorb rt st) (sym (split_blank-append (st.parser_remainder ++ a) b))
    ∙ ap (λ t. absorb rt st (split_blank t)) (append_assoc st.parser_remainder a b)

-- The last `n` items of a list, which is what the retention keeps.
abbrev pub keep_last {ℓ} : {A : Type ℓ} → ℕ → List A → List A
keep_last n xs = drop (length xs - n) xs

keep_last_short {ℓ} : {A : Type ℓ} (n : ℕ) (xs : List A) → length xs ≤ n → keep_last n xs ≡ xs
keep_last_short n xs h = let e : length xs - n ≡ 0 = omega arith in rw e

keep_last-cons {ℓ} :
    {A : Type ℓ} (n : ℕ) (x : A) (xs : List A)
    → n ≤ length xs
    → keep_last n (x ∷ xs) ≡ keep_last n xs
keep_last-cons n x xs h = let e : suc (length xs) - n ≡ suc (length xs - n) = omega arith in rw e

-- Items that an earlier cut removes would not be kept by a later one.
pub keep_last-append {ℓ} :
    {A : Type ℓ} (n : ℕ) (xs ys : List A)
    → keep_last n (keep_last n xs ++ ys) ≡ keep_last n (xs ++ ys)
keep_last-append n [] ys = let e : 0 - n ≡ 0 = omega arith in rw e
keep_last-append n (x ∷ xs) ys = elim (dec_le n (length xs)) [
  | yes h ↦
      rw
        (
          keep_last-cons n x xs h,
          keep_last-cons n x (xs ++ ys) (omega (arith, length-append xs ys)),
        )
        (keep_last-append n xs ys)
  | no h ↦ rw (keep_last_short n (x ∷ xs) (omega arith))
]

pub apply_retention_lem :
    (max : ℕ) (st : SseStreamState)
    → apply_retention max st ≡ record st { events = keep_last max st.events }
unfolding apply_retention
apply_retention_lem max st = elim (dec_le (length st.events) max) [
  | yes h ↦ rw (le→leb _ _ h, keep_last_short max st.events h)
  | no h ↦ rw (lt→not-leb (length st.events) max (omega arith))
]

-- One chunk as the reducer takes it: fed, then cut to the cap.
abbrev pub feed_retained : Runtime → ℕ → SseStreamState → Text → SseStreamState
feed_retained rt max st chunk = apply_retention max (feed_chunk rt st chunk)

-- A cut before a chunk is made up for by the cut behind it.
feed_retained-apply_retention :
    (rt : Runtime) (max : ℕ) (st : SseStreamState) (chunk : Text)
    → feed_retained rt max (apply_retention max st) chunk ≡ feed_retained rt max st chunk
unfolding feed_chunk absorb
feed_retained-apply_retention rt max st chunk =
    simp (apply_retention_lem, add_events-append, keep_last-append)

-- Over any sequence of chunks the state of the reducer is that of one parse of the whole text, cut
-- once: the same number of events seen, the same remainder, and the last `max` events.
pub feed_retained-flatten :
    (rt : Runtime) (max : ℕ) (st : SseStreamState) (chunk : Text) (chunks : List Text)
    → foldl (feed_retained rt max) (feed_retained rt max st chunk) chunks
      ≡ feed_retained rt max st (chunk ++ flatten chunks)
unfolding flatten
feed_retained-flatten rt max st chunk [] = ap (feed_retained rt max st) (sym (append-nil chunk))
feed_retained-flatten rt max st chunk (c ∷ cs) =
    ap (λ s. foldl (feed_retained rt max) s cs)
      (feed_retained-apply_retention rt max (feed_chunk rt st chunk) c
        ∙ ap (apply_retention max) (feed_chunk-append rt st chunk c))
    ∙ feed_retained-flatten rt max st (chunk ++ c) cs
    ∙ ap (feed_retained rt max st) (append_assoc chunk c (flatten cs))
