-- ===== src/Scenario.antt =====
-- Concrete states and runs of the modelled code, with the theorems applied to them.
pub mod Ipc
pub mod Task
pub mod Pmm
pub mod Keyboard
pub mod Sec
pub mod Elf
pub mod Str
pub mod Shell
pub mod Vmm
pub mod Heap
pub mod Tfs
pub mod Sys
