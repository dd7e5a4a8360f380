-- ===== src/Sec.antt =====
-- src/tsec_core.h: the page-table entries of the kernel's hardened mappings; and src/tsec.c: the choice
-- of the slot for the image. The processor reads bit 0 of an entry as "present", bit 1 as "writable"
-- and bit 63 as "not executable".
pub mod Pte
pub mod Hardening
pub mod Kaslr
pub mod Slots
