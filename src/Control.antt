-- ===== src/Control.antt =====
-- The functions of machine.c by which a front end creates, loads, resets, inspects and stops a
-- machine. `machine_free` gives memory back and leaves no machine.
pub mod Laws
use emculator.Prelude.{ℕ, ◌*◌, Bool, true, false, ◌==◌, leb, ltb, if◌then◌else◌, Option, none, some}
use emculator.Word.{sub32}
use emculator.Terminal.{terminal_init}
use emculator.Machine.{Machine, Flags, psr_word, update, pc, sp, lr}
use emculator.Memory.Bytes.{read_le}

abbrev pub zero_flags : Flags
zero_flags = record { t = true; it2 = 0; it1 = 0; v = false; c = false; z = false; n = false }

-- `calloc` gives zeroes, and the flash is erased. `input` and `rands` are what the C library
-- will give.
abbrev pub new_machine : (input rands : ℕ → ℕ) (image_size pagesize ram_size loglevel : ℕ) → Machine
new_machine input rands image_size pagesize ram_size loglevel = record {
  regs = λ _. 0;
  psr = zero_flags;
  image = λ _. 0xff;
  image_size = image_size;
  image_writable = false;
  pagesize = pagesize;
  mem = λ _. 0;
  mem_size = ram_size;
  nvic_ip = λ _. 0;
  cpacr = 0;
  pselreset = λ _. 0;
  call_depth = 1;
  backtrace = λ _. record { pc = 0; sp = 0 };
  last_sp = 0;
  hwbreak = λ _. 0;
  loglevel = loglevel;
  halt = false;
  terminal = terminal_init input;
  rands = rands;
  rand_calls = 0;
}

unfoldable pub machine_create :
    (input rands : ℕ → ℕ) (image_size pagesize ram_size loglevel : ℕ) → Option Machine
machine_create input rands image_size pagesize ram_size loglevel =
    if ltb image_size (16 * 4)
    then none
    else some (new_machine input rands image_size pagesize ram_size loglevel)

-- `memcpy` of at most `machine->image_size` bytes of an array of `image_size` bytes.
unfoldable pub machine_load : (ℕ → ℕ) → ℕ → Machine → Machine
machine_load image image_size m =
    let size = if ltb m.image_size image_size then m.image_size else image_size in
    record m { image = λ o. if ltb o size then image o else m.image o }

-- The vector table holds the initial stack pointer and the address of the reset handler.
unfoldable pub machine_reset : Machine → Machine
machine_reset m =
    let stack = read_le m.image 0 4 in
    let entry = read_le m.image 4 4 in
    record m {
      regs = update (update (update m.regs sp stack) lr 0xdeadbeef) pc entry;
      backtrace = update m.backtrace 1 (record { pc = sub32 entry 1; sp = stack });
    }

-- `machine->regs[r]`, with the flags as the last of the 17.
abbrev pub reg_word : Machine → ℕ → ℕ
unfolding psr_word
reg_word m r = if r == 16 then psr_word m.psr else m.regs r

unfoldable pub machine_readreg : Machine → ℕ → ℕ
unfolding psr_word
machine_readreg m r = if leb 17 r then 0 else reg_word m r

unfoldable pub machine_halt : Machine → Machine
machine_halt m = record m { halt = true }

unfoldable pub machine_break : Machine → ℕ → ℕ → Machine × Bool
machine_break m num addr =
    if leb 4 num then (m, false) else (record m { hwbreak = update m.hwbreak num addr }, true)
