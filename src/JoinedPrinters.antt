-- ===== src/JoinedPrinters.antt =====
-- tid/create_tid.c: two threads print, and main waits for both.
pub mod Threads
mod Order
mod Examples
