-- ===== src/Traces/Cards.antt =====
-- What the grouped list of ui/src/components/trace-group.tsx shows.
use protospy.Prelude.{
  ℕ, ◌+◌, ◌≡◌, refl, sym, ap, ◌∙◌, Bool, not, ◌&&◌, true, false, none, some, List, [], ◌∷◌, Text,
  text_eq, filter, if◌then◌else◌, arith, Option-cases, Bool-cases, subst, inl, inr,
}
use protospy.Prelude.StringLaws.{text_eq_refl, text_eq_sound}
use protospy.Store.Types.{Exchange}
use protospy.Traces.Members.{
  is_member, is_member_alone, is_member_of, listed, listed-collect_members,
}
use protospy.Traces.Tally.{
  shown_by, tally, tally-append, text_eq_swap, apart_by, neither, weigh, weigh_of, weigh_alone,
  not_and_false,
}
use protospy.Traces.Groups.{collect_members, is_grouped, row, group_items, grouped_exchange_list}
use protospy.Traces.Items.{
  is_seen, is_left, is_left_alone, is_left_of, group_items_for, group_items_single,
  group_items_seen, group_items_new,
}

module _ (by_trace : List (Text × List Exchange)) (p : Exchange → Bool) where
  unit : Exchange → ℕ
  unit y = if p y then 1 else 0

  tally-filter :
      (q : Exchange → Bool) (y : Exchange) (xs : List Exchange)
      → tally p (filter q (y ∷ xs)) ≡ weigh (q y) (unit y) + tally p (filter q xs)
  unfolding tally unit weigh
  tally-filter q y xs = elim (Bool-cases (q y)) [
    | inl passed ↦ rw (passed) refl
    | inr failed ↦ rw (failed) (omega arith)
  ]

  module _ (seen : List Text) (t : Text) (grouped : is_grouped by_trace t ≡ true)
      (new : is_seen seen t ≡ false) where
    -- Of the three tests an exchange passes the first and one of the others, or none.
    weigh_split_of :
        (u : Text) (n : ℕ)
        → weigh (not (is_grouped by_trace u && is_seen seen u)) n
          ≡ weigh (text_eq u t) n + weigh (not (is_grouped by_trace u && is_seen (t ∷ seen) u)) n
    unfolding weigh
    weigh_split_of u n = elim (Bool-cases (text_eq u t)) [
      | inl same ↦
          subst
            (λ v.
              weigh (not (is_grouped by_trace v && is_seen seen v)) n
              ≡ weigh (text_eq v t) n
                + weigh (not (is_grouped by_trace v && is_seen (t ∷ seen) v)) n)
            (sym (text_eq_sound u t same)) (rw (grouped, new, text_eq_refl t) (omega arith))
      | inr other ↦ rw (other, text_eq_swap u t other) (omega arith)
    ]

    weigh_split :
        (y : Exchange) (n : ℕ)
        → weigh (is_left by_trace seen y) n
          ≡ weigh (is_member t y) n + weigh (is_left by_trace (t ∷ seen) y) n
    weigh_split y n = elim (Option-cases y.trace_id) [
      | inl alone ↦
          weigh_of n (is_left_alone by_trace seen y alone) (is_member_alone t y alone)
            (is_left_alone by_trace (t ∷ seen) y alone) (weigh_alone n)
      | inr (u, in_trace) ↦
          weigh_of n (is_left_of by_trace seen y u in_trace) (is_member_of t u y in_trace)
            (is_left_of by_trace (t ∷ seen) y u in_trace) (weigh_split_of u n)
    ]

    -- Of what is left, a trace that is shown next takes its members away.
    tally-split :
        (xs : List Exchange)
        → tally p (filter (is_left by_trace seen) xs)
          ≡ tally p (filter (is_member t) xs) + tally p (filter (is_left by_trace (t ∷ seen)) xs)
    unfolding tally
    tally-split [] = omega arith
    tally-split (y ∷ xs) = omega (
      arith,
      tally-filter (is_left by_trace seen) y xs,
      tally-filter (is_member t) y xs,
      tally-filter (is_left by_trace (t ∷ seen)) y xs,
      weigh_split y (unit y),
      tally-split xs,
    )

  -- Each trace with a card to come has all its members among the exchanges to come.
  abbrev IsAhead : List Text → List Exchange → Type 0
  IsAhead seen xs =
      (t : Text)
      → is_grouped by_trace t ≡ true
      → is_seen seen t ≡ false
      → listed t by_trace ≡ filter (is_member t) xs

  IsAhead-behind :
      (seen : List Text) (x : Exchange) (xs : List Exchange)
      → IsAhead seen (x ∷ xs)
      → ((t : Text) → is_grouped by_trace t ≡ true → is_seen seen t ≡ false → is_member t x ≡ false)
      → IsAhead seen xs
  IsAhead-behind seen x xs ahead apart t grouped new =
      ahead t grouped new
      ∙ ap (λ b. if b then x ∷ filter (is_member t) xs else filter (is_member t) xs)
          (apart t grouped new)

  module _ (seen : List Text) (x : Exchange) (xs : List Exchange) where
    tally_kept :
        (q : Exchange → Bool)
        → q x ≡ true
        → tally p (filter q (x ∷ xs)) ≡ unit x + tally p (filter q xs)
    unfolding weigh
    tally_kept q passed =
        tally-filter q x xs ∙ ap (λ b. weigh b (unit x) + tally p (filter q xs)) passed

    tally_dropped :
        (q : Exchange → Bool) → q x ≡ false → tally p (filter q (x ∷ xs)) ≡ tally p (filter q xs)
    tally_dropped q failed = ap (λ b. tally p (if b then x ∷ filter q xs else filter q xs)) failed

    -- A row shows its exchange.
    tally-row :
        group_items by_trace seen (x ∷ xs) ≡ row x ∷ group_items by_trace seen xs
        → is_left by_trace seen x ≡ true
        → tally p (shown_by (group_items by_trace seen xs))
          ≡ tally p (filter (is_left by_trace seen) xs)
        → tally p (shown_by (group_items by_trace seen (x ∷ xs)))
          ≡ tally p (filter (is_left by_trace seen) (x ∷ xs))
    unfolding tally shown_by unit
    tally-row items left ih =
        ap (λ i. tally p (shown_by i)) items
        ∙ ap (λ n. unit x + n) ih
        ∙ sym (tally_kept (is_left by_trace seen) left)

    module _ (t : Text) (in_trace : x.trace_id ≡ some t) where
      -- An exchange is no member of a trace that a test tells from its own.
      member_apart :
          (test : Text → Bool) (u : Text) (b : Bool)
          → test t ≡ not b
          → test u ≡ b
          → is_member u x ≡ false
      member_apart test u b own others =
          is_member_of u t x in_trace ∙ apart_by test t u b own others

      left_behind : is_grouped by_trace t ≡ true → is_left by_trace (t ∷ seen) x ≡ false
      left_behind grouped =
          is_left_of by_trace (t ∷ seen) x t in_trace ∙ rw (grouped, text_eq_refl t) refl

      -- A card shows all members of its trace.
      tally-card :
          is_grouped by_trace t ≡ true
          → is_seen seen t ≡ false
          → IsAhead seen (x ∷ xs)
          → tally p (shown_by (group_items by_trace (t ∷ seen) xs))
            ≡ tally p (filter (is_left by_trace (t ∷ seen)) xs)
          → tally p (shown_by (group_items by_trace seen (x ∷ xs)))
            ≡ tally p (filter (is_left by_trace seen) (x ∷ xs))
      unfolding shown_by
      tally-card grouped new ahead ih =
          ap (λ i. tally p (shown_by i)) (group_items_new by_trace seen x xs t in_trace grouped new)
          ∙ tally-append p (listed t by_trace) (shown_by (group_items by_trace (t ∷ seen) xs))
          ∙ ap (λ m. tally p m + tally p (shown_by (group_items by_trace (t ∷ seen) xs)))
              (ahead t grouped new)
          ∙ ap (λ n. tally p (filter (is_member t) (x ∷ xs)) + n)
              (ih ∙ sym (tally_dropped (is_left by_trace (t ∷ seen)) (left_behind grouped)))
          ∙ sym (tally-split seen t grouped new (x ∷ xs))

  -- Behind a new card, the traces to come are others.
  IsAhead-card :
      (seen : List Text) (x : Exchange) (xs : List Exchange) (t : Text)
      → x.trace_id ≡ some t
      → IsAhead seen (x ∷ xs)
      → IsAhead (t ∷ seen) xs
  IsAhead-card seen x xs t in_trace ahead u grouped new =
      let both = neither (text_eq t u) (is_seen seen u) new in
      ahead u grouped both.1
      ∙ ap (λ b. if b then x ∷ filter (is_member u) xs else filter (is_member u) xs)
          (is_member_of u t x in_trace ∙ both.0)

  tally-group_items :
      (seen : List Text) (xs : List Exchange)
      → IsAhead seen xs
      → tally p (shown_by (group_items by_trace seen xs))
        ≡ tally p (filter (is_left by_trace seen) xs)
  unfolding group_items tally shown_by
  tally-group_items seen [] ahead = refl
  tally-group_items seen (x ∷ xs) ahead = elim (Option-cases x.trace_id) [
    | inl alone ↦
        tally-row seen x xs (group_items_for by_trace seen x xs none alone)
          (is_left_alone by_trace seen x alone)
          (tally-group_items seen xs
            (IsAhead-behind seen x xs ahead (λ t g n. is_member_alone t x alone)))
    | inr (t, in_trace) ↦ elim (Bool-cases (is_grouped by_trace t)) [
      | inr single ↦
          tally-row seen x xs (group_items_single by_trace seen x xs t in_trace single)
            (is_left_of by_trace seen x t in_trace ∙ rw (single) refl)
            (tally-group_items seen xs (
              IsAhead-behind seen x xs ahead
                (λ u g n. member_apart seen x xs t in_trace (is_grouped by_trace) u true single g)))
      | inl grouped ↦ elim (Bool-cases (is_seen seen t)) [
        | inl shown ↦
            ap (λ i. tally p (shown_by i))
              (group_items_seen by_trace seen x xs t in_trace grouped shown)
            ∙ tally-group_items seen xs (
                IsAhead-behind seen x xs ahead
                  (λ u g n. member_apart seen x xs t in_trace (is_seen seen) u false shown n))
            ∙ sym (
                tally_dropped seen x xs (is_left by_trace seen)
                  (is_left_of by_trace seen x t in_trace ∙ rw (grouped, shown) refl))
        | inr new ↦
            tally-card seen x xs t in_trace grouped new ahead
              (tally-group_items (t ∷ seen) xs (IsAhead-card seen x xs t in_trace ahead))
      ]
    ]
  ]

is_left_at_first :
    (by_trace : List (Text × List Exchange)) (x : Exchange) → is_left by_trace [] x ≡ true
is_left_at_first by_trace x = elim (Option-cases x.trace_id) [
  | inl alone ↦ is_left_alone by_trace [] x alone
  | inr (t, in_trace) ↦ is_left_of by_trace [] x t in_trace ∙ not_and_false (is_grouped by_trace t)
]

filter_all :
    (by_trace : List (Text × List Exchange)) (xs : List Exchange)
    → filter (is_left by_trace []) xs ≡ xs
filter_all by_trace [] = refl
filter_all by_trace (x ∷ xs) =
    ap (λ b. if b then x ∷ filter (is_left by_trace []) xs else filter (is_left by_trace []) xs)
      (is_left_at_first by_trace x)
    ∙ ap (◌∷◌ x) (filter_all by_trace xs)

-- The cards and rows of a grouped list show each exchange as often as the list has it: of the
-- exchanges that pass a test, whatever the test, there are as many.
pub tally-grouped_exchange_list :
    (p : Exchange → Bool) (exchanges : List Exchange)
    → tally p (shown_by (grouped_exchange_list exchanges)) ≡ tally p exchanges
unfolding grouped_exchange_list
tally-grouped_exchange_list p exchanges =
    tally-group_items (collect_members exchanges) p [] exchanges
      (λ t grouped new. listed-collect_members t exchanges)
    ∙ ap (tally p) (filter_all (collect_members exchanges) exchanges)
