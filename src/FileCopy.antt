-- ===== src/FileCopy.antt =====
-- The programs of ansi_c that copy bytes: file1.c, file2.c and file3.c.
pub mod Programs
mod Copies
mod Examples
