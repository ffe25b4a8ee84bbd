-- ===== src/Paged.antt =====
-- fuguex-state/src/paged.rs: segments of a memory, each over a flat or a chunked state.
pub mod IntervalMap
pub mod Segments
pub mod State
mod Tests
