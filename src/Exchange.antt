-- ===== src/Exchange.antt =====
-- One exchange over TCP: socket/tcp/9-1-s.c and socket/tcp/9-1-c.c.
pub mod Programs
mod Greetings
