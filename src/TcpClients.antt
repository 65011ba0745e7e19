-- ===== src/TcpClients.antt =====
-- The clients of the TCP chats: socket/more_tcp/t1c.c, of t1s.c, and socket/more_tcp/t2c.c, of t2s.c.
pub mod Programs
mod Sending
mod Relayed
mod Examples
