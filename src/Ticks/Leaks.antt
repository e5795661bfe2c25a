-- ===== src/Ticks/Leaks.antt =====
-- The timer that ui/src/lib/tickSource.ts leaks when its only listener subscribes again.
use protospy.Prelude.{
  ℕ, ◌<◌, ◌≡◌, ◌≢◌, refl, ap, ◌∙◌, sym, true, not, Option, none, some, List, [], ◌∷◌, ◌++◌, filter,
  length, ◌==◌, arith, Bool-cases, inl, inr, some_injective, subst,
}
use protospy.JsonTree.Rows.{has}
use protospy.JsonTree.Expand.{add, remove}
use protospy.Ticks.{TickState, set_interval, start_first, subscribe, clear_interval, unsubscribe}
use protospy.Ticks.Timers.{
  Reachable, started, subscribed, unsubscribed, ExpectedTimers, HasOneTimer, Reachable-HasOneTimer,
}

-- A call of the clock: `subscribe`, or the function that it returned.
pub data Call : Type 0 where
  subscribing : ℕ → Call
  unsubscribing : ℕ → Call

-- The state after calls in turn.
unfoldable pub after_calls : List Call → TickState → TickState
after_calls [] s = s
after_calls (subscribing listener ∷ calls) s = after_calls calls (subscribe listener s)
after_calls (unsubscribing listener ∷ calls) s = after_calls calls (unsubscribe listener s)

-- The timer runs, and its number is neither kept nor given out again.
record IsLeaked (timer : ℕ) (s : TickState) : Type 0 where
  running : has s.timers timer ≡ true
  forgotten : s.interval_id ≢ some timer
  old : timer < s.next_timer

has-concat : (ts : List ℕ) (t new : ℕ) → has ts t ≡ true → has (ts ++ new ∷ []) t ≡ true
unfolding has
has-concat [] t new h = cc
has-concat (x ∷ ts) t new h = ground (arith, has-concat ts t new)

has-filter :
    (ts : List ℕ) (t id : ℕ)
    → has ts t ≡ true
    → t ≢ id
    → has (filter (λ u. not (u == id)) ts) t ≡ true
unfolding has
has-filter [] t id h ne = cc
has-filter (x ∷ ts) t id h ne = ground (arith, has-filter ts t id)

some_ne : (a b : ℕ) → a ≢ b → some a ≢ some b
some_ne a b ne e = ne (some_injective e)

set_interval-IsLeaked :
    (timer : ℕ) (s : TickState)
    → has s.timers timer ≡ true
    → timer < s.next_timer
    → IsLeaked timer (set_interval s)
unfolding set_interval
set_interval-IsLeaked timer s runs old = record {
  running = has-concat s.timers timer s.next_timer runs;
  forgotten = some_ne s.next_timer timer (ground (arith, old));
  old = omega (arith, old);
}

subscribe-IsLeaked :
    (timer listener : ℕ) (s : TickState) → IsLeaked timer s → IsLeaked timer (subscribe listener s)
unfolding subscribe start_first
subscribe-IsLeaked timer listener s leaked =
    elim (Bool-cases (length (add listener s.listeners) == 1)) [
      | inl first ↦
          rw (first, start_first)
            (set_interval-IsLeaked timer (record s { listeners = add listener s.listeners })
              leaked.running leaked.old)
      | inr other ↦
          rw (other, start_first)
            (record { running = leaked.running; forgotten = leaked.forgotten; old = leaked.old })
    ]

clear_interval-IsLeaked :
    (timer : ℕ) (ls : List ℕ) (interval : Option ℕ) (s : TickState)
    → interval ≢ some timer
    → IsLeaked timer s
    → IsLeaked timer (clear_interval ls interval s)
unfolding clear_interval
clear_interval-IsLeaked timer [] none s ne leaked = leaked
clear_interval-IsLeaked timer [] (some id) s ne leaked = record {
  running = has-filter s.timers timer id leaked.running (λ e. ne (ap some (sym e)));
  forgotten = λ e. cc;
  old = leaked.old;
}
clear_interval-IsLeaked timer (l ∷ ls) interval s ne leaked = leaked

unsubscribe-IsLeaked :
    (timer listener : ℕ) (s : TickState)
    → IsLeaked timer s
    → IsLeaked timer (unsubscribe listener s)
unfolding unsubscribe
unsubscribe-IsLeaked timer listener s leaked =
    clear_interval-IsLeaked timer (remove listener s.listeners) s.interval_id
      (record s { listeners = remove listener s.listeners }) leaked.forgotten
      (record { running = leaked.running; forgotten = leaked.forgotten; old = leaked.old })

after_calls-IsLeaked :
    (timer : ℕ) (calls : List Call) (s : TickState)
    → IsLeaked timer s
    → IsLeaked timer (after_calls calls s)
unfolding after_calls
after_calls-IsLeaked timer [] s leaked = leaked
after_calls-IsLeaked timer (subscribing l ∷ calls) s leaked =
    after_calls-IsLeaked timer calls (subscribe l s) (subscribe-IsLeaked timer l s leaked)
after_calls-IsLeaked timer (unsubscribing l ∷ calls) s leaked =
    after_calls-IsLeaked timer calls (unsubscribe l s) (unsubscribe-IsLeaked timer l s leaked)

-- A kept number has been given out.
abbrev IsGiven : TickState → Type 0
IsGiven s = (id : ℕ) → s.interval_id ≡ some id → id < s.next_timer

subscribe-IsGiven : (l : ℕ) (s : TickState) → IsGiven s → IsGiven (subscribe l s)
unfolding subscribe start_first set_interval
subscribe-IsGiven l s given = elim (Bool-cases (length (add l s.listeners) == 1)) [
  | inl first ↦
      rw (first, start_first, set_interval)
        (λ id e. let same : s.next_timer ≡ id = some_injective e in omega (arith, same))
  | inr other ↦ rw (other, start_first) given
]

clear_interval-IsGiven :
    (ls : List ℕ) (interval : Option ℕ) (s : TickState)
    → IsGiven s
    → IsGiven (clear_interval ls interval s)
unfolding clear_interval
clear_interval-IsGiven [] none s given = given
clear_interval-IsGiven [] (some id) s given = λ k e. cc
clear_interval-IsGiven (l ∷ ls) interval s given = given

Reachable-IsGiven : {s : TickState} → Reachable s → IsGiven s
unfolding unsubscribe
Reachable-IsGiven started = λ id e. cc
Reachable-IsGiven (subscribed {s = s} l new r) = subscribe-IsGiven l s (Reachable-IsGiven r)
Reachable-IsGiven (unsubscribed {s = s} l r) =
    clear_interval-IsGiven (remove l s.listeners) s.interval_id
      (record s { listeners = remove l s.listeners }) (Reachable-IsGiven r)

eq_self : (l : ℕ) → l == l ≡ true
eq_self l = ground arith

add_again : (l : ℕ) → add l (l ∷ []) ≡ l ∷ []
unfolding add has
add_again l = rw (eq_self l) refl

start_first_one : (s : TickState) → length s.listeners == 1 ≡ true → start_first s ≡ set_interval s
unfolding start_first
start_first_one s one = rw (start_first, one) refl

-- The only listener subscribes again: an interval is set beside the one that runs.
subscribe_again : (l : ℕ) (s : TickState) → s.listeners ≡ l ∷ [] → subscribe l s ≡ set_interval s
unfolding subscribe
subscribe_again l s only =
    ap (λ ls. start_first (record s { listeners = ls })) (ap (add l) only ∙ add_again l ∙ sym only)
    ∙ start_first_one s (ap (λ ls. length ls == 1) only)

running_of_kept :
    (l timer : ℕ) (s : TickState)
    → HasOneTimer s
    → s.listeners ≡ l ∷ []
    → s.interval_id ≡ some timer
    → has s.timers timer ≡ true
unfolding has
running_of_kept l timer s one only kept =
    let (id, running, all) = subst (λ ls. ExpectedTimers ls s.interval_id s.timers) only one in
    let same : id ≡ timer = some_injective (sym running ∙ kept) in
    ap (λ ts. has ts timer) all ∙ ap (λ i. has (i ∷ []) timer) same ∙ ground arith

-- When the only listener subscribes again, the timer that ran until then is never stopped: whatever
-- calls follow, also where no listener is left, it runs, and its number is not the one that is kept.
pub subscribe_twice_leaks :
    {s : TickState}
    → Reachable s
    → (listener timer : ℕ) → s.listeners ≡ listener ∷ []
    → s.interval_id ≡ some timer
    → (later : List Call)
    → (has (after_calls later (subscribe listener s)).timers timer ≡ true)
      × ((after_calls later (subscribe listener s)).interval_id ≢ some timer)
subscribe_twice_leaks {s} r listener timer only kept later =
    let runs = running_of_kept listener timer s (Reachable-HasOneTimer r) only kept in
    let leaked = after_calls-IsLeaked timer later (subscribe listener s) (
      rw (subscribe_again listener s only)
        (set_interval-IsLeaked timer s runs (Reachable-IsGiven r timer kept))) in
    (leaked.running, leaked.forgotten)
