-- ===== src/Lib.antt =====
-- ysyxworkbench: NEMU, an emulator of riscv32 with a debugger, and the C library of the abstract
-- machine that guest programs are linked with; the simulation driver of the processor npc; the
-- platform that programs for its system on a chip are linked with; and a cache simulator.
--
-- A guest program runs in nemu. `cpu_exec` (nemu/src/cpu/cpu-exec.c) repeats `exec_once`, which
-- fetches a word from the memory, decodes it by the INSTPAT patterns and runs the body of the
-- pattern (nemu/src/isa/riscv32/inst.c). Loads and stores go to one of four arrays
-- (nemu/src/memory) or, outside of those, to the devices' maps (nemu/src/device/io). After each
-- instruction the watchpoints are evaluated (nemu/src/monitor/sdb), and the differential test can
-- compare the processor with a reference (nemu/src/cpu/difftest).
--
-- The processor npc is hardware; its driver npc/csrc/main.cpp loads the image, gives the hardware its
-- memory by DPI calls, drives its clock and its serial input, counts its events, and compares it with
-- nemu as a reference. The cache simulator npc/tools/cachesim/cachesim.cpp reads the trace of program
-- counters that the driver can write, and counts hits and misses under lru, fifo and random. Programs
-- for the hardware start in the loaders of abstract-machine/am/src/riscv/ysyxsoc and reach its screen
-- and keyboard through ioe.c there.
--
-- On nemu and npc a program is linked with abstract-machine/am/src/riscv and platform/nemu. An ecall
-- goes to `__am_asm_trap` (trap.S), which saves a context on the stack, calls `__am_irq_handle`
-- (cte.c), and goes on in the context that this returns. The drivers for sound, clock and keyboard
-- read and write the registers of nemu's devices: `__am_audio_play` and nemu's callback share a ring
-- of bytes and its count.
--
-- Files and what they model:
--   Prelude        numbers, words, lists, bit operations, and how a run of C code ends: a value, a
--                  failed assertion, undefined behaviour, or fuel of the model that is used up
--   Memory         nemu/src/memory/paddr.c and vaddr.c, nemu/include/memory
--   Device         nemu/src/device/io (Map, PortIo), keyboard.c (Keyboard), and serial.c, timer.c,
--                  vga.c and audio.c (Ports), sdcard.c and mmc.h (Sdcard)
--   Difftest       nemu/src/cpu/difftest/dut.c, nemu/src/isa/riscv32/difftest/dut.c
--   State          nemu/src/utils/state.c
--   Ftrace         nemu/src/utils/ftrace.c
--   Cpu            nemu/src/isa/riscv32 and nemu/include/cpu/decode.h: State has the registers and
--                  traps, Pattern the macros of the patterns, Operand the fields and immediates, Op
--                  the table of patterns, Alu the arithmetic, Exec the instructions' bodies
--   Monitor        nemu/src/monitor/sdb: watchpoint.c (Watchpoint), expr.c (Expr), sdb.c (Commands)
--   Run            nemu/src/cpu/cpu-exec.c
--   CacheSim       npc/tools/cachesim/cachesim.cpp: Args and Numbers have parse_args, Trace the
--                  trace and the loop of main, Ideal the caches of the specification
--   Npc            npc/csrc/main.cpp: Memory, Uart, Perf, Exec (the execution loop), Start (main)
--   Soc            abstract-machine/am/src/riscv/ysyxsoc: trm.c (Boot), ioe.c (Screen, Input, Keys)
--   Am             abstract-machine/am/src/riscv/nemu and npc: cte.c and trap.S (Cte), timer.c and
--                  input.c of npc; platform/nemu/ioe: audio.c (Audio), timer.c (Timer), input.c
--   Klib           abstract-machine/klib/src: string.c (String), stdio.c (Format), stdlib.c (Stdlib)
--   Tests          runs on concrete inputs, and applications of the theorems
-- The other files below a part hold proofs about it and are named for what they prove.
--
-- A trap of the abstract machine works on a memory of words at their addresses; its handler is any
-- function from an event, a context and a state to a context and a state.
--
-- State is passed explicitly: a C function that changes a variable takes the record with that
-- variable and returns the new one. Functions keep their C names. A word is a natural number, and
-- each wrap-around is written out; an `int32_t` is kept as its bit pattern.
--
-- Where a division has no quotient, `atoi` overflows or an access is outside its array, the run ends as
-- undefined, and so it does where the place of a pixel in `__am_gpu_fbdraw` is no `int`.
--
-- Configuration: the defaults of nemu/Kconfig: riscv32, CONFIG_RT_CHECK, CONFIG_WATCHPOINT,
-- CONFIG_FTRACE and CONFIG_ETRACE on. The number of registers is a parameter, and so is the choice
-- of devices: without CONFIG_DEVICE there is no bus. ENABLE_DIFFTEST of npc is an argument.
--
-- Parameters: the devices' callbacks in the maps, the reference of the differential test, POSIX
-- `regexec`, `sscanf`, the scancodes of SDL, the time, the numbers of type double and the draws of
-- the cache simulator, the files, and the Verilated hardware: a state, an evaluation that may change
-- the state, the memory and the counters, and the signals that the driver reads.
--
-- Fuel: the lists of watchpoints are walked with 33 rounds, one more than there are watchpoints.
-- The tokenizer has one round more than the text has bytes, and the evaluator one more than there
-- are tokens. The functions of the C library that run to a NUL take their fuel as an argument; the
-- loops over digits have 33 rounds. `cpu_exec` of npc takes the number of rounds of its loop as an
-- argument, and so does `read_time`. The copy loops of the platform have as many rounds as there
-- are bytes.
--
-- Not modelled: what is only printed or logged, the command line and the image loading of nemu,
-- SDL, the ELF readers, the disassemblers, the other instruction sets, the start-up code, the
-- paging and the frame buffer of the abstract machine on nemu, its other platforms, the hardware
-- in Verilog and Chisel (npc, ysyxSoC), the prompt and the traces of npc, the other tools, and the
-- copies of other projects.
pub mod Prelude
pub mod Memory
pub mod Difftest
pub mod CacheSim
pub mod Device
pub mod State
pub mod Ftrace
pub mod Cpu
pub mod Monitor
pub mod Klib
pub mod Npc
pub mod Soc
pub mod Run
pub mod Am
pub mod Tests
