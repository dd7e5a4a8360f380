-- ===== src/Elf.antt =====
-- src/telf_core.h and src/telf.c: the parser of ELF64 executables, and the loader.
pub mod Parse
pub mod Plan
pub mod Load
pub mod Tables
pub mod Copies
pub mod Keep
