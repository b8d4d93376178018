-- ===== src/Builtins.antt =====
-- src/builtins/builtins.c: the builtins that work on data alone.
-- A builtin takes its arguments behind its name; messages on stderr are not modelled.
pub mod Condition
pub mod Parameters
pub mod Format
pub mod Declare
pub mod Same
