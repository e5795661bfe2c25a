-- ===== src/Shell.antt =====
-- ui/src/components/app-shell.tsx: moving the selection, the keys and the first sizes of the panels.
pub mod Moves
pub mod Keys
pub mod Panels
pub mod Selection
pub mod Stepping
pub mod Cycling
pub mod Dialogs
pub mod Toasts
