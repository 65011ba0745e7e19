-- ===== src/TextFile.antt =====
-- ansi_c/wf.c and ansi_c/rf.c: a text file is written and read back.
pub mod Programs
mod ReadBack
mod Examples
