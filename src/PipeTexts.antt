-- ===== src/PipeTexts.antt =====
-- pid/pipe.c: a parent sends two texts to its child through a pipe.
pub mod Processes
mod Outcome
mod Examples
