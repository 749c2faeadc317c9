-- ===== src/Monitor.antt =====
-- The simple debugger: nemu/src/monitor/sdb.
pub mod Watchpoint
pub mod Expr
pub mod Commands
