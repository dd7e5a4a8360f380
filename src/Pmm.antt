-- ===== src/Pmm.antt =====
-- The physical memory manager: src/tpmm.c.
pub mod Bitmap
pub mod Count
pub mod State
pub mod Init
pub mod Valid
pub mod Alloc
pub mod Contig
pub mod RoundTrip
pub mod Boot
