-- ===== src/EchoServer.antt =====
-- The echo server socket/more_tcp/ps.c.
pub mod Programs
mod Serving
mod Examples
