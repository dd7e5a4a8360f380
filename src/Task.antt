-- ===== src/Task.antt =====
-- The scheduler: src/ttask_core.h, src/ttask.h and src/ttask.c.
pub mod Pick
pub mod Slice
pub mod Table
pub mod Switch
pub mod Create
pub mod Ops
pub mod Run
