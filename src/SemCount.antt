-- ===== src/SemCount.antt =====
-- tid/pth_sem.c: a producer and a consumer around a counter of a buffer and a semaphore.
pub mod Threads
mod Counts
mod Moves
mod Invariant
mod Outcome
mod InTurn
mod Examples
