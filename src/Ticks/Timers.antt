-- ===== src/Ticks/Timers.antt =====
-- The timers of ui/src/lib/tickSource.ts as listeners come and go.
use protospy.Prelude.{
  ℕ, suc, ◌≡◌, refl, sym, subst, false, Option, none, some, List, [], ◌∷◌, ◌++◌, length,
  length-append, ◌==◌, arith,
}
use protospy.JsonTree.Rows.{has}
use protospy.JsonTree.Expand.{add, remove}
use protospy.Ticks.{
  TickState, start, set_interval, start_first, subscribe, clear_interval, unsubscribe,
}

-- The states that listeners lead to where none subscribes while it is subscribed.
pub data Reachable : TickState → Type 0 where
  started : Reachable start
  subscribed :
      {s : TickState} (listener : ℕ)
      → has s.listeners listener ≡ false
      → Reachable s
      → Reachable (subscribe listener s)
  unsubscribed : {s : TickState} (listener : ℕ) → Reachable s → Reachable (unsubscribe listener s)

-- The timers that should run.
abbrev pub ExpectedTimers : List ℕ → Option ℕ → List ℕ → Type 0
ExpectedTimers [] interval timers = (interval ≡ none) × (timers ≡ [])
ExpectedTimers (l ∷ ls) interval timers = (id : ℕ) × (interval ≡ some id) × (timers ≡ id ∷ [])

abbrev pub HasOneTimer : TickState → Type 0
HasOneTimer s = ExpectedTimers s.listeners s.interval_id s.timers

add_new : (l : ℕ) (ls : List ℕ) → has ls l ≡ false → add l ls ≡ ls ++ l ∷ []
unfolding add
add_new l ls h = rw h refl

more_than_one : (ls : List ℕ) (l : ℕ) → suc (length (ls ++ l ∷ [])) == 1 ≡ false
more_than_one ls l = ground (arith, length-append ls (l ∷ []))

start_first-HasOneTimer :
    (listener : ℕ) (ls : List ℕ) (interval : Option ℕ) (timers : List ℕ) (next : ℕ)
    → ExpectedTimers ls interval timers
    → HasOneTimer (
        start_first (record {
          listeners = ls ++ listener ∷ [];
          interval_id = interval;
          timers = timers;
          next_timer = next;
        }))
unfolding start_first set_interval
start_first-HasOneTimer l [] interval timers next h = rw (h.1) (next, refl, refl)
start_first-HasOneTimer l (k ∷ ls) interval timers next h = rw (more_than_one ls l) h

subscribe-HasOneTimer :
    (listener : ℕ) (s : TickState)
    → has s.listeners listener ≡ false
    → HasOneTimer s
    → HasOneTimer (subscribe listener s)
unfolding subscribe
subscribe-HasOneTimer l s new h =
    subst (λ ls. HasOneTimer (start_first (record s { listeners = ls })))
      (sym (add_new l s.listeners new))
      (start_first-HasOneTimer l s.listeners s.interval_id s.timers s.next_timer h)

clear_interval-HasOneTimer :
    (ls before : List ℕ) (interval : Option ℕ) (timers : List ℕ) (next : ℕ)
    → ExpectedTimers before interval timers
    → (before ≡ [] → ls ≡ [])
    → HasOneTimer (
        clear_interval ls interval
          (record { listeners = ls; interval_id = interval; timers = timers; next_timer = next }))
unfolding clear_interval
clear_interval-HasOneTimer [] [] interval timers next h empty' = rw (h.0) (refl, h.1)
clear_interval-HasOneTimer [] (b ∷ bs) interval timers next (id, running, only) empty' =
    rw (running, only) (refl, ground arith)
clear_interval-HasOneTimer (l ∷ ls) [] interval timers next h empty' =
    let impossible = empty' refl in cc
clear_interval-HasOneTimer (l ∷ ls) (b ∷ bs) interval timers next h empty' = h

remove-nil : (l : ℕ) (ls : List ℕ) → ls ≡ [] → remove l ls ≡ []
unfolding remove
remove-nil l ls e = rw e refl

-- While there are listeners exactly one timer runs, the one whose number is kept, and without
-- listeners none runs, as long as no listener subscribes while it is subscribed.
pub Reachable-HasOneTimer : {s : TickState} → Reachable s → HasOneTimer s
unfolding unsubscribe
Reachable-HasOneTimer started = (refl, refl)
Reachable-HasOneTimer (subscribed {s = s} l new r) =
    subscribe-HasOneTimer l s new (Reachable-HasOneTimer r)
Reachable-HasOneTimer (unsubscribed {s = s} l r) =
    clear_interval-HasOneTimer (remove l s.listeners) s.listeners s.interval_id s.timers
      s.next_timer (Reachable-HasOneTimer r) (remove-nil l s.listeners)
