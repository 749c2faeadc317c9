-- ===== src/Memory.antt =====
-- The guest's physical memory: nemu/src/memory/paddr.c, nemu/src/memory/vaddr.c,
-- nemu/include/memory/host.h and nemu/include/memory/paddr.h.
-- The sizes of pmem are the defaults of nemu/src/memory/Kconfig.
mod Host
mod Paddr
pub mod Translate
pub mod Access
pub mod Frame
unfoldable pub use Host.*
unfoldable pub use Paddr.*
