-- ===== src/UdpChat.antt =====
-- socket/s.c: the UDP chat server, whose peers are a linked list on the heap.
pub mod Heap
pub mod Server
pub mod Chain
pub mod Broadcast
pub mod Quit
pub mod Login
pub mod Room
pub mod Session
pub mod Deliveries
pub mod Client
pub mod Hearing
mod Conversation
mod Protocol
mod Examples
mod ClientExamples
