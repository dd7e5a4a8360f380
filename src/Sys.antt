-- ===== src/Sys.antt =====
-- src/tsys.c: the system calls, and what each may change.
pub mod State
pub mod Calls
pub mod Cases
pub mod Memory
pub mod User
pub mod Sleep
pub mod Objects
pub mod Effect
pub mod Entries
pub mod Deliver
