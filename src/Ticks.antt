-- ===== src/Ticks.antt =====
-- ui/src/lib/tickSource.ts: one interval for all listeners of the clock. A listener and a timer are
-- numbers; `timers` are the intervals that the platform runs, which `setInterval` starts under a
-- new number and `clearInterval` stops.
pub mod Timers
pub mod Leaks
use protospy.Prelude.{
  ℕ, suc, Bool, true, false, not, Option, none, some, List, [], ◌∷◌, ◌++◌, filter, length, ◌==◌,
  if◌then◌else◌,
}
use protospy.JsonTree.Expand.{add, remove}

pub record TickState : Type 0 where
  pub listeners : List ℕ
  pub interval_id : Option ℕ
  pub timers : List ℕ
  pub next_timer : ℕ

abbrev pub start : TickState
start = record { listeners = []; interval_id = none; timers = []; next_timer = 0 }

-- `intervalId = setInterval(tick, 1000)`
unfoldable pub set_interval : TickState → TickState
set_interval s = record s {
  interval_id = some s.next_timer;
  timers = s.timers ++ s.next_timer ∷ [];
  next_timer = suc s.next_timer;
}

-- `if (listeners.size === 1)`
unfoldable pub start_first : TickState → TickState
unfolding set_interval
start_first s = if length s.listeners == 1 then set_interval s else s

unfoldable pub subscribe : ℕ → TickState → TickState
unfolding add start_first
subscribe listener s = start_first (record s { listeners = add listener s.listeners })

-- `if (listeners.size === 0 && intervalId !== null)`
unfoldable pub clear_interval : List ℕ → Option ℕ → TickState → TickState
clear_interval [] (some id) s = record s {
  interval_id = none;
  timers = filter (λ t. not (t == id)) s.timers;
}
clear_interval [] none s = s
clear_interval (l ∷ ls) interval s = s

-- the function that `subscribe` returns
unfoldable pub unsubscribe : ℕ → TickState → TickState
unfolding remove clear_interval
unsubscribe listener s =
    let removed : TickState = record s { listeners = remove listener s.listeners } in
    clear_interval removed.listeners s.interval_id removed
