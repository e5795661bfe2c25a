-- ===== src/Body.antt =====
-- How a body is shown: ui/src/body/view-modes.ts and ui/src/body/split-sizing.ts.
pub mod ViewModes
pub mod Resolution
pub mod SplitSizing
