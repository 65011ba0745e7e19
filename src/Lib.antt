-- ===== src/Lib.antt =====
-- The chat servers, relays and thread programs of 01git. Each C file is a program of its own; those
-- that talk to one another are modelled together.
--
-- UdpChat: socket/s.c and socket/c.c. The peers of the UDP chat server are a linked list on an
--   explicit heap (UdpChat/Heap), and the functions of the file are commands over it
--   (UdpChat/Server), with the same names. The loops take fuel: one round more than the list has nodes
--   is enough, and a server that receives n datagrams needs a fuel above n. UdpChat/Room is the
--   abstract server. The client is UdpChat/Client. UdpChat/Conversation joins the two: it
--   hands what the client's child sends to the server, and what the server sends to an address to the
--   client's parent there. UdpChat/Protocol is the order in which a client may send.
-- ClientTable: socket/more_tcp/t2s.c. `client` and `cnt` are a list of 100 places and a count;
--   `broadcast`, the two branches of `pthread_run` and a round of `main` are functions on them
--   (ClientTable/Server), each taken as one step. ClientTable/Leaving has the search and removal of
--   several threads at once, one access at a time. ClientTable/Main is `main` with what it prints, and
--   ClientTable/Room the abstract server, a list of sockets with 100 places.
-- ProdCons: tid/prod_cons.c. The two threads are step functions over their shared variables, one
--   access to shared memory at a time (ProdCons/Threads).
-- Relay: pid/pipemsg/pls.c, pid/pipemsg/pzs.c, pid/pipemsg/123.c and tidpid/admin.c: one `select`
--   loop with the output of each program as a parameter (Relay/Loop). tidpid/admin1.c, which does not
--   use `select`, is Relay/Blocking. Relay/Opening is how two clients of 123.c open the two FIFOs.
-- SlotTable: socket/more_tcp/t1s.c and socket/more_tcp/s.c: the table and the threads of t1s.c
--   (SlotTable/Table), `main` of both (SlotTable/Mains), the threads of s.c (SlotTable/Stale).
--   SlotTable/Seats is the accept loop of t1s.c beside threads that clear their slots, one access to the
--   table at a time.
-- Procon: tidpid/procon1.c (Procon/Commands) and tidpid/procon.c (Procon/Select). Every thread is
--   joined within the command that starts it, so a command runs it to its end or blocks.
--   The threads themselves, over the list they share, are Procon/Threads. Procon/Admin joins procon1.c
--   to tidpid/admin1.c; one `read` there takes all that was written in answer to a line, and
--   Procon/Conversation has what `fgets` reads of the lines typed.
-- SelectChat: socket/tcp/95s.c and socket/tcp/95c.c: one `select` loop with what each program prints
--   and closes as a parameter (SelectChat/Loop). socket/tcp/95c1.c is SelectChat/Datagrams.
-- UdpFile: socket/udp/c.c and socket/udp/s.c (UdpFile/Programs), and socket/udp/c1.c (UdpFile/Words).
-- TcpClients: socket/more_tcp/t1c.c and socket/more_tcp/t2c.c (TcpClients/Programs). TcpClients/Relayed
--   joins t2c.c to the server of ClientTable, one `recv` for each `send`, on both ways.
-- QueueChat: pid/pipemsg/pro2.c (QueueChat/Programs). The receiving loop takes as fuel the number of
--   its rounds; one for each message of the group in the queue is enough.
-- FifoPair: pid/pipemsg/write.c, pid/pipemsg/read.c, pid/fifo_send.c and pid/fifo_receiver.c
--   (FifoPair/Programs).
-- MutexCount: tid/pth_mutex.c as step functions of its two threads (MutexCount/Threads).
-- SemCount: tid/pth_sem.c in the same way (SemCount/Threads).
-- PrintCount: tid/pth1.c in the same way (PrintCount/Threads); each increment is a read and a write.
-- JoinedPrinters: tid/create_tid.c, main and its two threads (JoinedPrinters/Threads), without the
--   process and thread numbers that they print.
-- RangeSum: gdb/gbtest.c (RangeSum/Program). The fuel of the loop is one for each number of the range
--   and one more, which is enough for the last test of the condition.
-- TextFile: ansi_c/wf.c and ansi_c/rf.c (TextFile/Programs); `fscanf` and `fgets` act on the bytes left.
-- StudentList: ansi_c/file_rw1.c (StudentList/Programs), with the compiler's layout of a struct as an
--   argument. NamePrompt: socket/select/9-4.c (NamePrompt/Program).
-- PipeTexts: pid/pipe.c as step functions of the parent and the child (PipeTexts/Processes), each with
--   the lines that it prints.
-- Exchange: socket/tcp/9-1-c.c and socket/tcp/9-1-s.c (Exchange/Programs).
-- TcpTalk: socket/tcptest/c.c, socket/tcptest/s.c and the threads of socket/tcptest/s1.c
--   (TcpTalk/Programs). The client's buffer is kept between its calls. TcpTalk/Accepts is `main` of
--   s1.c, with the one variable that its threads read.
-- EchoServer: socket/more_tcp/ps.c (EchoServer/Programs).
-- FileCopy: ansi_c/file1.c, ansi_c/file2.c and ansi_c/file3.c (FileCopy/Programs). The fuel is the
--   number of rounds: two more than the file has bytes is enough.
--
-- Io holds what the programs with plain input and output do: a trace of prints, sends and closes, and
-- how it ends. Steps holds what the programs of several threads share: runs, and what every step
-- keeps. Base holds the shared names, lists over the native numbers, C strings as lists of bytes
-- (Base/Bytes), what `fgets` reads of an input (Base/Typing) and chains of options.
--
-- What comes from outside enters as arguments: what `select`, `recv`, `read` and `fgets` give, as lists
-- of rounds; `malloc` and `sendto` of UdpChat, as a record; `send` of ClientTable, as a test; thread
-- identities, `pthread_key_delete` and the addresses of arrays in Procon; `rand` in ProdCons and
-- SemCount; the order of accepts and reads in TcpTalk/Accepts, and of the steps wherever threads or
-- processes share something. A write or read outside an array ends a run as a fault or a crash.
--
-- Not modelled: the races of joins and broadcasts in ClientTable, and of sends in SlotTable, which are
-- atomic steps; the addresses and ports given to the sockets; the texts of most error messages;
-- pid/proc.c and pid/load.c, which print process numbers and dots in a straight line; sig/, of which one
-- program does not compile and the other counts seconds for ever.
mod Base
pub mod Io
pub mod Steps
pub mod UdpChat
pub mod ClientTable
pub mod ProdCons
pub mod Relay
pub mod SlotTable
pub mod Procon
pub mod SelectChat
pub mod UdpFile
pub mod FileCopy
pub mod TcpTalk
pub mod EchoServer
pub mod QueueChat
pub mod FifoPair
pub mod TcpClients
pub mod MutexCount
pub mod Exchange
pub mod SemCount
pub mod PrintCount
pub mod RangeSum
pub mod TextFile
pub mod PipeTexts
pub mod StudentList
pub mod NamePrompt
pub mod JoinedPrinters
