-- ===== src/Klib.antt =====
-- The C library of the abstract machine: abstract-machine/klib/src.
pub mod String
pub mod Copy
pub mod Strings
pub mod Format
pub mod Digits
pub mod Decimal
pub mod Stdlib
pub mod Heap
