-- ===== src/Str.antt =====
-- src/tstring.c: memory and string routines.
pub mod Memory
pub mod Number
pub mod Moves
pub mod Digits
pub mod Format
pub mod Text
