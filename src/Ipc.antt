-- ===== src/Ipc.antt =====
-- Inter-process communication: src/tipc_core.h (wait queues, the mailbox ring, the mutex object)
-- and src/tipc.c (blocking send and receive, the recursive mutex).
pub mod Fifo
pub mod WaitQueue
pub mod Mailbox
pub mod Transfer
pub mod Mutex
