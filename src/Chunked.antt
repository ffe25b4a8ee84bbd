-- ===== src/Chunked.antt =====
-- fuguex-state/src/chunked.rs: an allocator over a flat state.
pub mod ChunkList
pub mod Heap
pub mod IntervalLists
mod Tests
mod HeapTests
