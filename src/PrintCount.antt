-- ===== src/PrintCount.antt =====
-- tid/pth1.c: two threads that count with one static variable and no lock.
pub mod Threads
mod Invariant
mod Bounds
mod Examples
