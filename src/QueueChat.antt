-- ===== src/QueueChat.antt =====
-- The group chat of pid/pipemsg/pro2.c over a System V message queue.
pub mod Programs
mod Rounds
mod Delivery
mod Examples
