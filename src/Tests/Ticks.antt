-- ===== src/Tests/Ticks.antt =====
-- The clock's listeners at concrete inputs.
use protospy.Prelude.{◌≡◌, ◌≢◌, refl, true, false, some, List, [], ◌∷◌}
use protospy.JsonTree.Rows.{has}
use protospy.Ticks.{start, subscribe, unsubscribe}
use protospy.Ticks.Timers.{
  Reachable, started, subscribed, unsubscribed, HasOneTimer, Reachable-HasOneTimer,
}
use protospy.Ticks.Leaks.{Call, subscribing, unsubscribing, after_calls, subscribe_twice_leaks}

seven_is_new : has (subscribe 5 start).listeners 7 ≡ false
unfolding has subscribe
seven_is_new = refl

five_is_new : has start.listeners 5 ≡ false
unfolding has
five_is_new = refl

two_come_one_goes : Reachable (unsubscribe 5 (subscribe 7 (subscribe 5 start)))
two_come_one_goes = unsubscribed 5 (subscribed 7 seven_is_new (subscribed 5 five_is_new started))

Reachable-HasOneTimer_example : HasOneTimer (unsubscribe 5 (subscribe 7 (subscribe 5 start)))
Reachable-HasOneTimer_example = Reachable-HasOneTimer two_come_one_goes

one_comes : Reachable (subscribe 5 start)
one_comes = subscribed 5 five_is_new started

one_listener : (subscribe 5 start).listeners ≡ 5 ∷ []
unfolding subscribe
one_listener = refl

first_kept : (subscribe 5 start).interval_id ≡ some 0
unfolding subscribe
first_kept = refl

-- the listener leaves twice, and another comes
abbrev later_calls : List Call
later_calls = unsubscribing 5 ∷ unsubscribing 5 ∷ subscribing 7 ∷ []

subscribe_twice_leaks_example :
    (has (after_calls later_calls (subscribe 5 (subscribe 5 start))).timers 0 ≡ true)
    × ((after_calls later_calls (subscribe 5 (subscribe 5 start))).interval_id ≢ some 0)
subscribe_twice_leaks_example =
    subscribe_twice_leaks one_comes 5 0 one_listener first_kept later_calls
