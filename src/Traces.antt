-- ===== src/Traces.antt =====
-- How the list shows which exchanges belong to one trace: the rail of
-- ui/src/components/trace-rail.tsx and the cards of ui/src/components/trace-group.tsx.
pub mod Lanes
pub mod Packing
pub mod Spans
pub mod Depth
pub mod Rail
pub mod Groups
pub mod Members
pub mod Tally
pub mod Items
pub mod Cards
