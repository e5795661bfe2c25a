-- ===== src/Exchanges/Pinned.antt =====
-- `sortHeadersByPin` of ui/src/lib/utils.ts against the list that its comment describes.
use protospy.Prelude.{
  All-weaken, ℕ, zero, suc, ◌+◌, ◌<◌, ◌≤◌, ◌≡◌, refl, ap, ◌∙◌, true, false, not, [], ◌∷◌, ◌++◌,
  append-nil, All, All-append, filter, ltb, ◌==◌, Bool-cases, inl, inr, arith, le→leb, lt→not-leb,
  ltb→lt,
}
use protospy.Wire.{Header, ProxyHeaders}
use protospy.Exchanges.Headers.{pin_of, is_pinned, insert_by_pin, sort_by_pin, sort_headers_by_pin}

lt→ne : (a b : ℕ) → a < b → a == b ≡ false
lt→ne a b h = ground arith

eq_of : (a b : ℕ) → a == b ≡ true → a ≡ b
eq_of a b h = ground arith

-- The headers of one pinned name, in their order.
abbrev pub pinned_at : ℕ → ProxyHeaders → ProxyHeaders
pinned_at i hs = filter (λ h. pin_of h == i) hs

-- Those of `n` names from the `i`-th on, one name after the other.
unfoldable pub buckets : ℕ → ℕ → ProxyHeaders → ProxyHeaders
buckets i zero hs = []
buckets i (suc n) hs = pinned_at i hs ++ buckets (suc i) n hs

-- A header goes in front of headers that all have its place or a later one.
insert_first :
    (h : Header) (gs : ProxyHeaders)
    → All (λ g. pin_of h ≤ pin_of g) gs
    → insert_by_pin h gs ≡ h ∷ gs
unfolding insert_by_pin
insert_first h [] a = refl
insert_first h (g ∷ gs) a = rw (le→leb (pin_of h) (pin_of g) a.0) refl

-- A header passes headers that all have an earlier place.
insert_behind :
    (h : Header) (gs rest : ProxyHeaders)
    → All (λ g. pin_of g < pin_of h) gs
    → insert_by_pin h (gs ++ rest) ≡ gs ++ insert_by_pin h rest
unfolding insert_by_pin
insert_behind h [] rest a = refl
insert_behind h (g ∷ gs) rest a =
    rw (lt→not-leb (pin_of h) (pin_of g) a.0) (ap (◌∷◌ g) (insert_behind h gs rest a.1))

pinned_at-place : (i : ℕ) (hs : ProxyHeaders) → All (λ g. pin_of g ≡ i) (pinned_at i hs)
pinned_at-place i [] = tt
pinned_at-place i (h ∷ hs) = elim (Bool-cases (pin_of h == i)) [
  | inl same ↦ rw same (ground arith, pinned_at-place i hs)
  | inr other ↦ rw other (pinned_at-place i hs)
]

buckets-from :
    (i n : ℕ) (hs : ProxyHeaders) (low : ℕ) → low ≤ i → All (λ g. low ≤ pin_of g) (buckets i n hs)
unfolding buckets
buckets-from i zero hs low h = tt
buckets-from i (suc n) hs low h =
    All-append (λ g. low ≤ pin_of g) (pinned_at i hs) (buckets (suc i) n hs)
      (All-weaken (λ g e. omega (arith, e, h)) (pinned_at i hs) (pinned_at-place i hs))
      (buckets-from (suc i) n hs low (omega (arith, h)))

-- Names before the header's own do not see it.
buckets_later :
    (h : Header) (i n : ℕ) (hs : ProxyHeaders)
    → pin_of h < i
    → buckets i n (h ∷ hs) ≡ buckets i n hs
unfolding buckets
buckets_later h i zero hs lt = refl
buckets_later h i (suc n) hs lt =
    rw (lt→ne (pin_of h) i lt)
      (ap (λ rest. pinned_at i hs ++ rest) (buckets_later h (suc i) n hs (omega (arith, lt))))

insert_by_pin-buckets :
    (h : Header) (i n : ℕ) (hs : ProxyHeaders)
    → i ≤ pin_of h
    → pin_of h < i + n
    → insert_by_pin h (buckets i n hs) ≡ buckets i n (h ∷ hs)
unfolding buckets
insert_by_pin-buckets h i zero hs lo hi = ground arith
insert_by_pin-buckets h i (suc n) hs lo hi = elim (Bool-cases (pin_of h == i)) [
  | inl same ↦
      rw (same, buckets_later h (suc i) n hs (omega (arith, eq_of (pin_of h) i same)))
        (insert_first h (pinned_at i hs ++ buckets (suc i) n hs)
          (buckets-from i (suc n) hs (pin_of h) (ground arith)))
  | inr other ↦ rw other (
      insert_behind h (pinned_at i hs) (buckets (suc i) n hs)
        (All-weaken (λ g e. ground arith) (pinned_at i hs) (pinned_at-place i hs))
      ∙ ap (λ rest. pinned_at i hs ++ rest)
          (insert_by_pin-buckets h (suc i) n hs (ground arith) (omega (arith, hi))))
]

sort_by_pin-buckets :
    (hs : ProxyHeaders) → All (λ h. pin_of h < 5) hs → sort_by_pin hs ≡ buckets 0 5 hs
unfolding sort_by_pin buckets
sort_by_pin-buckets [] a = refl
sort_by_pin-buckets (h ∷ hs) a =
    rw (sort_by_pin-buckets hs a.1) (insert_by_pin-buckets h 0 5 hs (omega arith) a.0)

pinned_places : (hs : ProxyHeaders) → All (λ h. pin_of h < 5) (filter is_pinned hs)
unfolding is_pinned
pinned_places [] = tt
pinned_places (h ∷ hs) = elim (Bool-cases (ltb (pin_of h) 5)) [
  | inl pinned ↦ rw pinned (ltb→lt (pin_of h) 5 pinned, pinned_places hs)
  | inr other ↦ rw other (pinned_places hs)
]

not_at : (p i : ℕ) → ltb p 5 ≡ false → i < 5 → p == i ≡ false
not_at p i h lt = ground arith

-- Filtering for pinned headers first takes away none of a pinned name.
pinned_at-filter :
    (i : ℕ) (hs : ProxyHeaders) → i < 5 → pinned_at i (filter is_pinned hs) ≡ pinned_at i hs
unfolding is_pinned
pinned_at-filter i [] lt = refl
pinned_at-filter i (h ∷ hs) lt = elim (Bool-cases (ltb (pin_of h) 5)) [
  | inl pinned ↦ elim (Bool-cases (pin_of h == i)) [
    | inl same ↦ rw (pinned, same) (ap (◌∷◌ h) (pinned_at-filter i hs lt))
    | inr other ↦ rw (pinned, other) (pinned_at-filter i hs lt)
  ]
  | inr other ↦ rw (other, not_at (pin_of h) i other lt) (pinned_at-filter i hs lt)
]

-- Sorting lists the headers of each of the five pinned names in turn, then all others, each group
-- in its first order.
pub sort_headers_by_pin_lem :
    (headers : ProxyHeaders)
    → sort_headers_by_pin headers
      ≡ pinned_at 0 headers
        ++ (pinned_at 1 headers
            ++ (pinned_at 2 headers ++ (pinned_at 3 headers ++ pinned_at 4 headers)))
        ++ filter (λ h. not (is_pinned h)) headers
unfolding sort_headers_by_pin buckets
sort_headers_by_pin_lem headers =
    let pinned = filter is_pinned headers in
    rw
      (
        sort_by_pin-buckets pinned (pinned_places headers),
        pinned_at-filter 0 headers (omega arith),
        pinned_at-filter 1 headers (omega arith),
        pinned_at-filter 2 headers (omega arith),
        pinned_at-filter 3 headers (omega arith),
        pinned_at-filter 4 headers (omega arith),
        append-nil (pinned_at 4 headers),
      )
      refl
