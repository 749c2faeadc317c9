-- ===== src/Am.antt =====
-- The abstract machine on nemu and npc: what runs on the processor, under abstract-machine/am/src.
pub mod Audio
pub mod Cte
pub mod Timer
pub mod Input
