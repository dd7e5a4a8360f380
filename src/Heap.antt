-- ===== src/Heap.antt =====
-- The kernel heap: src/tmalloc.c.
pub mod State
pub mod Search
pub mod Laws
pub mod Valid
pub mod Take
pub mod Fit
pub mod Safe
pub mod Links
pub mod Lends
pub mod Growth
