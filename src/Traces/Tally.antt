-- ===== src/Traces/Tally.antt =====
-- Counting the exchanges that the items of ui/src/components/trace-group.tsx show.
use protospy.Prelude.{
  ℕ, ◌+◌, ◌≡◌, refl, sym, ap, ◌∙◌, Bool, not, ◌&&◌, ◌||◌, true, false, List, [], ◌∷◌, ◌++◌, Text,
  text_eq, if◌then◌else◌, arith, Bool-cases, inl, inr,
}
use protospy.Prelude.StringLaws.{text_eq_refl, text_eq_sound}
use protospy.Store.Types.{Exchange}
use protospy.Traces.Members.{true_or_false}
use protospy.Traces.Groups.{GroupItem, card, row}

-- The exchanges that the items show.
unfoldable pub shown_by : List GroupItem → List Exchange
shown_by [] = []
shown_by (card t members ∷ items) = members ++ shown_by items
shown_by (row x ∷ items) = x ∷ shown_by items

-- How many exchanges pass a test.
unfoldable pub tally : (Exchange → Bool) → List Exchange → ℕ
tally p [] = 0
tally p (x ∷ xs) = (if p x then 1 else 0) + tally p xs

pub tally-append :
    (p : Exchange → Bool) (xs ys : List Exchange) → tally p (xs ++ ys) ≡ tally p xs + tally p ys
unfolding tally
tally-append p [] ys = omega arith
tally-append p (x ∷ xs) ys = omega (arith, tally-append p xs ys)

pub not_itself : (b : Bool) → (not b ≡ b) → ⊥
not_itself true h = cc
not_itself false h = cc

pub text_eq_swap : (s t : Text) → text_eq s t ≡ false → text_eq t s ≡ false
text_eq_swap s t other = elim (Bool-cases (text_eq t s)) [
  | inl same ↦
      absurd (
        true_or_false
          (sym (text_eq_refl s) ∙ ap (text_eq s) (sym (text_eq_sound t s same)) ∙ other))
  | inr apart ↦ apart
]

pub apart_by :
    (test : Text → Bool) (s t : Text) (b : Bool) → test s ≡ not b → test t ≡ b → text_eq s t ≡ false
apart_by test s t b hs ht = elim (Bool-cases (text_eq s t)) [
  | inl same ↦ absurd (not_itself b (sym hs ∙ ap test (text_eq_sound s t same) ∙ ht))
  | inr apart ↦ apart
]

pub neither : (a b : Bool) → (a || b) ≡ false → (a ≡ false) × (b ≡ false)
neither true b h = cc
neither false b h = (refl, h)

-- A number that counts where a test is passed.
unfoldable pub weigh : Bool → ℕ → ℕ
weigh true n = n
weigh false n = 0

pub weigh_of :
    (n : ℕ) {a b c x y z : Bool}
    → a ≡ x
    → b ≡ y
    → c ≡ z
    → weigh x n ≡ weigh y n + weigh z n
    → weigh a n ≡ weigh b n + weigh c n
weigh_of n ha hb hc h = cc

pub weigh_alone : (n : ℕ) → weigh true n ≡ weigh false n + weigh true n
unfolding weigh
weigh_alone n = omega arith

pub not_and_false : (b : Bool) → not (b && false) ≡ true
not_and_false true = refl
not_and_false false = refl
