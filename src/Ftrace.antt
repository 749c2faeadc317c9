-- ===== src/Ftrace.antt =====
-- The function tracer: nemu/src/utils/ftrace.c.
pub mod Defs
