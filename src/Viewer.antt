-- ===== src/Viewer.antt =====
-- ui/src/components/json-tree/json-tree-viewer.tsx: the state of the tree viewer.
pub mod Forest
pub mod State
pub mod Agreement
pub mod Reached
