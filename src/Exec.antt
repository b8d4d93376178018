-- ===== src/Exec.antt =====
-- src/exec: the shell's variables, its jobs and its signals.
pub mod Variable
pub mod Job
pub mod Signal
