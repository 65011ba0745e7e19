-- ===== src/Procon.antt =====
-- tidpid/procon1.c and tidpid/procon.c: servers that start producers and consumers on command.
pub mod Commands
pub mod Select
pub mod Balance
pub mod Listing
pub mod Threads
mod Nodes
pub mod Admin
mod Answers
mod Conversation
mod Examples
mod ThreadExamples
