-- ===== src/NamePrompt.antt =====
-- socket/select/9-4.c: a name is asked for, with five seconds to answer.
pub mod Program
