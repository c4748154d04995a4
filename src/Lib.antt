-- ===== src/Lib.antt =====
-- eMCUlator: the C emulator of a Cortex-M microcontroller.
--
-- The program interprets Thumb instructions. `machine.c` holds the processor and the memory
-- subsystem, `machine.h` their types, `terminal.c` the raw terminal behind the emulated UART. A
-- front end creates a machine, loads an image, resets it and runs it; `machine_run` calls
-- `machine_step` until a step fails or a halt is asked for; `machine_step` fetches from the flash,
-- decodes, and calls the arithmetic, `machine_transfer` for each memory access, and
-- `machine_add_backtrace` for each call.
--
-- Files. `Prelude` has the names and tests that all modules share, `Word` the integer types of C
-- (`Word/Bits` the laws of the bit operations, `Word/Int` signed numbers).
--   Machine        machine.h: `machine_t`, the error codes, and the monad `Op` of the functions on
--                  a `machine_t *`
--   Terminal       terminal.c
--   Memory         machine.c, `machine_transfer`: `Memory/Pointer` its pointers, `Memory/Bytes` the
--                  little-endian arrays, `Memory/Peripheral` the peripheral region
--   Alu            machine.c, `machine_alu_op`, with `Alu/Shift`, `Alu/Arith`, `Alu/Condition` for
--                  `machine_instr_lsl` to `machine_instr_sbc` and `machine_condition`
--   Backtrace      machine.c, `machine_add_backtrace`
--   Block          machine.c, `machine_instr_stmdb` to `machine_instr_ldmia`
--   It, Thumb16, Thumb32, Step
--                  machine.c, `machine_step`: the IT state, the formats of 16 and of 32 bits, and
--                  the guards, the fetch and the decoding
--   Control, Run, Inspect
--                  machine.c, `machine_create` and the other functions for front ends,
--                  `machine_run`, `machine_readmem` and `machine_readregs`
-- The proofs stand in the children `Laws` and in those named for what they prove; `Tests` has the
-- theorems at concrete inputs.
--
-- A `uint32_t` is a native number below 2 ^ 32 with its wrap written out. A register pointer is the
-- register's number; a pointer argument that is only read and written through is passed by value
-- and its new value returned. An operation gives `ok`, an error code with the machine as it then
-- is, `exited` where the program calls `exit`, or `ub` where C leaves the behaviour undefined:
-- an access outside an array, a shift by the width or more, a signed overflow. Conversions to
-- signed types and shifts of negative numbers are those of the compilers in use: two's complement,
-- arithmetic. An `int` has 32 bits. `malloc` and `calloc` are taken to succeed.
--
-- Outside the program are the C library and the device: the answers of `getchar` and `rand` are
-- functions of the number of the call, what is written to the terminal is a list of events, and the
-- exit handlers are those that `atexit` has registered. The
-- run loop takes fuel, since a program need not end; the result does not change once it is over.
-- Not modelled: the log output (and `machine_print_registers`), the Emscripten build, the command
-- line tools, the GDB server and the web page.
pub mod Prelude
pub mod Word
pub mod Terminal
pub mod Machine
pub mod Memory
pub mod Alu
pub mod Backtrace
pub mod Block
pub mod It
pub mod Thumb16
pub mod Thumb32
pub mod Step
pub mod Control
pub mod Run
pub mod Inspect
mod Tests
