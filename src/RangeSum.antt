-- ===== src/RangeSum.antt =====
-- gdb/gbtest.c: the sum of a range of `int`.
pub mod Program
mod Gauss
mod Examples
