-- ===== src/SlotTable.antt =====
-- socket/more_tcp/t1s.c and socket/more_tcp/s.c: a table of 50 sockets, of which
-- those that are 0 are free.
pub mod Table
pub mod Place
pub mod Worker
pub mod Mains
pub mod Stale
pub mod Seats
mod Deaf
mod Examples
