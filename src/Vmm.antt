-- ===== src/Vmm.antt =====
-- The virtual memory manager: src/tvmm.c.
pub mod Entry
pub mod State
pub mod Space
pub mod Tree
pub mod Grow
pub mod Wire
pub mod Ensure
pub mod Write
pub mod Lookup
pub mod Map
pub mod Pages
pub mod Unmap
pub mod Range
pub mod Perms
pub mod Create
