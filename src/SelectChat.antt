-- ===== src/SelectChat.antt =====
-- socket/tcp/95s.c and socket/tcp/95c.c: a server and a client that talk over one TCP connection.
pub mod Loop
pub mod Datagrams
pub mod Closing
mod Examples
