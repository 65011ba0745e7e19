-- ===== src/StudentList.antt =====
-- ansi_c/file_rw1.c: four students are read and written to a file as structs.
pub mod Programs
mod Records
mod Examples
