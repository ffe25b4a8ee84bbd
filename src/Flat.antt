-- ===== src/Flat.antt =====
-- fuguex-state/src/flat.rs: a flat vector of values with per-byte permissions and a record of the
-- blocks that were written, which `restore` copies back.
pub mod Access
pub mod Permissions
pub mod Dirty
pub mod State
mod Tests
