-- ===== src/Tests.antt =====
-- Runs of the definitions, and applications of the theorems, on concrete inputs.
mod Memory
mod Device
mod Cpu
mod Monitor
mod Klib
mod Run
mod CacheSim
mod Npc
mod Soc
mod Am
mod Sound
