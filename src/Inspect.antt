-- ===== src/Inspect.antt =====
-- `machine_readmem` and `machine_readregs` of machine.c: how a debugger reads the machine.
use emculator.Prelude.{
  ℕ, zero, suc, ◌+◌, ◌/◌, ◌%◌, false, ◌&&◌, ◌==◌, ltb, if◌then◌else◌, Option, none, some, List, [],
  ◌∷◌,
}
use emculator.Word.{u32}
use emculator.Machine.{
  Machine, psr_word, load, Width, width_8, width_32, Run, Op, ok, err, exited, ub,
}
use emculator.Memory.Pointer.{bytes}
use emculator.Memory.{machine_transfer}
use emculator.Control.{reg_word}

-- One read of the loop. `none` is the local variable that a failed load leaves without a value.
unfoldable pub read_item : ℕ → Width → Op (Option ℕ)
read_item address width m = elim (machine_transfer address load 0 width false m) [
  | ok x m' ↦ ok (some x) m'
  | err _ m' ↦ ok none m'
  | exited m' ↦ exited m'
  | ub ↦ ub
]

-- The loop, with `left` reads to go, the next one at `address`.
unfoldable pub read_items : ℕ → ℕ → Width → Machine → Run (List (Option ℕ))
unfolding read_item
read_items zero _ _ m = ok [] m
read_items (suc left) address width m = elim (read_item (u32 address) width m) [
  | ok x m' ↦ elim (read_items left (address + bytes width) width m') [
    | ok xs m'' ↦ ok (x ∷ xs) m''
    | err e m'' ↦ err e m''
    | exited m'' ↦ exited m''
    | ub ↦ ub
  ]
  | err e m' ↦ err e m'
  | exited m' ↦ exited m'
  | ub ↦ ub
]

-- The words or the bytes that are stored into `buf`.
unfoldable pub machine_readmem : ℕ → ℕ → Op (List (Option ℕ))
unfolding read_items
machine_readmem address length =
    if (address % 4 == 0) && (length % 4 == 0)
    then read_items (length / 4) address width_32
    else read_items length address width_8

-- The first `num` of `regs[0]`, `regs[1]`, and so on from index `i`.
unfoldable pub regs_from : Machine → ℕ → ℕ → List ℕ
unfolding psr_word
regs_from m i zero = []
regs_from m i (suc num) = reg_word m i ∷ regs_from m (i + 1) num

-- `num` is raised to 17 where it is smaller; past 17 the source reads beyond its array.
unfoldable pub machine_readregs : ℕ → Machine → Option (List ℕ)
unfolding regs_from
machine_readregs num m =
    let n = if ltb num 17 then 17 else num in if ltb 17 n then none else some (regs_from m 0 n)
