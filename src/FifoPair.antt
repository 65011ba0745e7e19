-- ===== src/FifoPair.antt =====
-- Programs that talk over a FIFO: pid/pipemsg/write.c and read.c, pid/fifo_send.c and fifo_receiver.c.
pub mod Programs
mod Stream
mod Examples
