-- ===== src/Store.antt =====
-- The state of the user interface: its types (ui/src/state/types.ts), the map of exchanges, the
-- reducer (ui/src/state/reducer.ts) and the store (ui/src/state/store.ts).
pub mod Types
pub mod Reducer
pub mod Consistency
pub mod Frame
pub mod Events
pub mod Bodies
pub mod Evict
pub mod Eviction
pub mod Labels
pub mod State
pub mod Selectors
pub mod Reachable
pub mod Visible
