-- ===== src/Am/Timer.antt =====
-- The guest's clock, abstract-machine/am/src/platform/nemu/ioe/timer.c, and its uptime on npc,
-- abstract-machine/am/src/riscv/npc/timer.c, over the map of nemu/src/device/timer.c. `Uptime` is
-- about the time that the guest reads.
pub mod Latch
pub mod Uptime
use ysyxworkbench.Prelude.{
  ℕ, zero, suc, ◌+◌, ◌-◌, ◌*◌, ◌%◌, ◌^◌, true, false, some, Result, ok, fault, no_fuel, ◌>>=◌, ◌==◌,
  bit_or,
}
use ysyxworkbench.Device.Map.{IoMap, Io, map_read}
use ysyxworkbench.Device.Ports.{rtc_io_handler}

abbrev pub rtc_addr : ℕ
rtc_addr = 0xa0000048

-- The io space, and how many reads the guest has made.
pub record Clock : Type 0 where
  pub io : Io ℕ
  pub reads : ℕ

-- `boot_time`
pub record Timer : Type 0 where
  pub clock : Clock
  pub boot_time : ℕ

-- The map that `init_timer` adds.
abbrev pub rtc : ℕ → IoMap (Unit {0})
rtc base = record {
  name = "rtc";
  low = rtc_addr;
  high = rtc_addr + 7;
  space = base;
  callback = some tt;
}

-- The registers are at `base` in `io_space`; `now i` is what `get_time` gives at read `i`.
module _ (base : ℕ) (now : ℕ → ℕ) where
  unfoldable pub inl_rtc : ℕ → Clock → Result (ℕ × Clock)
  inl_rtc addr c = do
    (word, io) ←
        map_read (λ device. rtc_io_handler base) addr 4 (some (rtc base))
          (record (c.io) { dev = now c.reads })
    ok (word, record { io = io; reads = c.reads + 1 })

  -- `read_time`, and the loop of npc's `__am_timer_uptime`; `fuel` bounds the rounds.
  unfoldable pub read_time : ℕ → Clock → Result (ℕ × Clock)
  unfolding inl_rtc
  read_time zero c = fault no_fuel
  read_time (suc fuel) c = do
    (hi, c1) ← inl_rtc (rtc_addr + 4) c
    (lo, c2) ← inl_rtc rtc_addr c1
    (hi_check, c3) ← inl_rtc (rtc_addr + 4) c2
    elim (hi == hi_check) [ true ↦ ok (bit_or (hi * 2 ^ 32) lo, c3) | false ↦ read_time fuel c3 ]

  unfoldable pub am_timer_init : ℕ → Timer → Result Timer
  unfolding read_time
  am_timer_init fuel t = do
    (time, c) ← read_time fuel t.clock
    ok (record { clock = c; boot_time = time })

  -- `us`, a `uint64_t`
  unfoldable pub am_timer_uptime : ℕ → Timer → Result (ℕ × Timer)
  unfolding read_time
  am_timer_uptime fuel t = do
    (time, c) ← read_time fuel t.clock
    ok ((time + 2 ^ 64 - t.boot_time) % 2 ^ 64, record t { clock = c })

  -- npc's `__am_timer_uptime`
  unfoldable pub npc_timer_uptime : ℕ → Clock → Result (ℕ × Clock)
  unfolding read_time
  npc_timer_uptime fuel c = read_time fuel c
