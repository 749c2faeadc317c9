-- ===== src/Soc.antt =====
-- The platform ysyxsoc of the abstract machine, abstract-machine/am/src/riscv/ysyxsoc: `Boot` has the
-- copy loops of trm.c, `Screen` and `Input` the drawing and the keyboard of ioe.c.
pub mod Boot
pub mod Screen
pub mod Keys
pub mod Input
