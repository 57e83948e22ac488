-- ===== src/Layout.antt =====
-- frontend/src/stores/dashboard.ts: saving a layout, rebased onto the server's on a conflict.
pub mod Rebase
pub mod Save
