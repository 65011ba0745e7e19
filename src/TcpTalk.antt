-- ===== src/TcpTalk.antt =====
-- The turn-by-turn chat of socket/tcptest: c.c, s.c and s1.c.
pub mod Programs
mod Dialogue
mod Endings
pub mod Accepts
mod Sockets
mod Examples
