-- ===== src/ClientTable.antt =====
-- socket/more_tcp/t2s.c: the TCP chat server, whose clients are an array with a count.
pub mod Server
pub mod Array
pub mod Broadcast
pub mod Members
pub mod Room
pub mod Main
pub mod Leaving
mod Capacity
mod Examples
