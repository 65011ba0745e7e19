-- ===== src/UdpFile.antt =====
-- socket/udp/c.c and socket/udp/s.c: three lines of a file sent as datagrams, and the server that
-- prints them.
pub mod Programs
pub mod Words
mod WordStream
pub mod RoundTrip
mod Examples
