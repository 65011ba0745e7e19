-- ===== src/Relay.antt =====
-- The two-way chats over a pair of FIFOs: pid/pipemsg/pls.c, pid/pipemsg/pzs.c, pid/pipemsg/123.c and
-- tidpid/admin.c.
pub mod Loop
pub mod Blocking
pub mod Forwarding
pub mod Programs
pub mod Opening
mod Pairing
mod Examples
mod OpeningExamples
