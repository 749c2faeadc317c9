-- ===== src/Tests/Memory.antt =====
-- Accesses to the memory of nemu/src/memory/paddr.c, without devices.
use ysyxworkbench.Prelude.{
  ◌≡◌, ◌%◌, ◌^◌, refl, inl, Option, none, some, ◌>>=◌, Result, ok, fault, arith,
}
use ysyxworkbench.Memory.{
  Bus, Store, guest_to_host, in_pmem, in_mrom, in_sram, in_flash, pmem_write, host_write,
  paddr_read, paddr_write,
}
use ysyxworkbench.Memory.Access.{IsBytes, paddr_read-paddr_write}
use ysyxworkbench.Memory.Frame.{paddr_read-paddr_write_apart, paddr_write-IsBytes}

abbrev no_device : Option (Bus (Unit {0}))
no_device = none

abbrev cleared : Store (Unit {0})
cleared = record { mem = λ r i. 0; io = tt }

abbrev after_write : Result (Store (Unit {0})) → Store (Unit {0})
after_write (ok st) = st
after_write (fault f) = cleared

abbrev written : Store (Unit {0})
written = after_write (paddr_write no_device 0x80000100 4 0x12345678 cleared)

write_runs : paddr_write no_device 0x80000100 4 0x12345678 cleared ≡ ok written
unfolding paddr_write pmem_write host_write guest_to_host in_pmem in_mrom in_sram in_flash
write_runs = refl

paddr_read-paddr_write_example :
    (paddr_read no_device 0x80000100 4 written ≡ ok (0x12345678 % 256 ^ 4, written))
    × (written.io ≡ cleared.io)
unfolding in_pmem in_sram
paddr_read-paddr_write_example =
    paddr_read-paddr_write no_device 0x80000100 4 0x12345678 cleared written refl write_runs

paddr_read-paddr_write_apart_example :
    paddr_read no_device 0x80000104 2 written
    ≡ (do (v, _) ← paddr_read no_device 0x80000104 2 cleared; ok (v, written))
unfolding in_pmem in_mrom in_sram in_flash
paddr_read-paddr_write_apart_example =
    paddr_read-paddr_write_apart no_device 0x80000100 0x80000104 4 2 0x12345678 cleared written
      (omega arith) (omega arith) refl refl (inl (omega arith)) write_runs

paddr_write-IsBytes_example : IsBytes written.mem
paddr_write-IsBytes_example =
    paddr_write-IsBytes no_device 0x80000100 4 0x12345678 cleared written (λ r i. omega arith)
      write_runs

-- A bus that takes every write and changes nothing.
abbrev quiet : Option (Bus (Unit {0}))
quiet = some (record { mmio_read = λ addr len s. ok (0, s); mmio_write = λ addr len word s. ok s })

rom_write_runs : paddr_write quiet 0x30000010 4 7 cleared ≡ ok cleared
unfolding paddr_write in_pmem in_sram
rom_write_runs = refl
