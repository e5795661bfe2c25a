-- ===== src/JsonTree.antt =====
-- The JSON tree viewer's pure core: ui/src/components/json-tree/model.ts, flatten.ts and expand.ts.
pub mod Model
pub mod Values
pub mod Rows
pub mod Expand
pub mod Numbering
pub mod CopyValue
pub mod Brackets
pub mod Truncation
pub mod Marker
pub mod Hidden
pub mod Expansion
pub mod Opened
pub mod Budget
