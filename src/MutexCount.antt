-- ===== src/MutexCount.antt =====
-- tid/pth_mutex.c: two threads that count up and down under one mutex.
pub mod Threads
mod Sections
mod Order
mod Outcome
mod Examples
