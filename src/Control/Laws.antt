-- ===== src/Control/Laws.antt =====
-- What the control functions do to a machine.
use emculator.Prelude.{ℕ, ◌≡◌, ◌<◌, ◌≢◌, ◌≤◌, false, true, some, arith, refl}
use emculator.Word.{IsU32, sub32}
use emculator.Machine.{Machine, err, err_break, pc, sp, lr}
use emculator.Memory.Bytes.{read_le}
use emculator.Control.{
  new_machine, machine_create, machine_load, machine_reset, machine_break, true, some, false,
}
use emculator.Step.{machine_step, at_break}

-- A hardware breakpoint that is set stops the machine before the instruction at its address, with
-- nothing changed; the other three breakpoints stay as they were.
pub machine_break-machine_step :
    (m : Machine) (num other addr : ℕ)
    → num < 4
    → IsU32 (m.regs pc)
    → sub32 (m.regs pc) 1 ≡ addr
    → other ≢ num
    → let m' = (machine_break m num addr).0 in
      ((machine_break m num addr).1 ≡ true)
      × (machine_step m' ≡ err err_break m')
      × (m'.hwbreak other ≡ m.hwbreak other)
unfolding machine_break machine_step at_break
machine_break-machine_step m num other addr h u at ne = ground arith

-- A number that names no breakpoint is refused.
pub machine_break_refused :
    (m : Machine) (num addr : ℕ) → 4 ≤ num → machine_break m num addr ≡ (m, false)
unfolding machine_break
machine_break_refused m num addr h = ground arith

-- A program of at least two words that is loaded into a new machine and reset starts at the address
-- in its second word, with the stack at its first word and the exit address to return to.
pub load-reset :
    (input rands image : ℕ → ℕ) (image_size pagesize ram_size loglevel size : ℕ)
    → 64 ≤ image_size
    → 8 ≤ size
    → (m : Machine) × (machine_create input rands image_size pagesize ram_size loglevel ≡ some m)
      × ((machine_reset (machine_load image size m)).regs sp ≡ read_le image 0 4)
      × ((machine_reset (machine_load image size m)).regs pc ≡ read_le image 4 4)
      × ((machine_reset (machine_load image size m)).regs lr ≡ 0xdeadbeef)
unfolding machine_create machine_load machine_reset read_le
load-reset input rands image image_size pagesize ram_size loglevel size h k = (
  new_machine input rands image_size pagesize ram_size loglevel,
  ground arith,
  ground arith,
  ground arith,
  refl,
)
