-- ===== src/Difftest.antt =====
-- The differential test: nemu/src/cpu/difftest/dut.c and nemu/src/isa/riscv32/difftest/dut.c.
pub mod Skip
pub mod Step
pub mod Checked
