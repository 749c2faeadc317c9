-- ===== src/Npc.antt =====
-- The simulation driver of the processor npc, npc/csrc/main.cpp: `Memory` has the arrays behind the
-- DPI functions, `Uart` the serial input pin, `Perf` the counters, and `Exec` the execution loop.
pub mod Memory
pub mod Uart
pub mod Perf
pub mod Exec
pub mod Start
