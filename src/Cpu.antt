-- ===== src/Cpu.antt =====
-- The riscv32 processor: nemu/src/isa/riscv32 and nemu/include/cpu/decode.h.
pub mod State
pub mod Pattern
pub mod Operand
pub mod Op
pub mod Alu
pub mod Exec
pub mod Bounds
pub mod Traps
pub mod Match
pub mod Arith
pub mod Division
