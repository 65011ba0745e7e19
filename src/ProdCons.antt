-- ===== src/ProdCons.antt =====
-- tid/prod_cons.c: a producer and a consumer that share a linked list under a mutex and a condition
-- variable.
mod Threads
mod Shape
mod Moves
mod Invariant
mod Progress
mod Termination
mod Examples
