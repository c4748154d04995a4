-- ===== src/Thumb32/Single.antt =====
-- `machine_step` of machine.c, the 32-bit loads and stores of a single item.
use emculator.Prelude.{ℕ, ◌+◌, Bool, not, ◌||◌, ◌==◌, if◌then◌else◌, Option, none, some}
use emculator.Word.{u32, sub32, ◌<<<◌, field, flag}
use emculator.Machine.{Width, width_8, width_16, width_32, Op, when, ◌>>=◌, ◌>>◌, reg, set_reg, pc}
use emculator.Memory.Peripheral.{is_width_32}
use emculator.Block.{transfer_reg}
use emculator.Thumb16.Transfer.{type_of, align4}
use emculator.Thumb32.Common.{undo_undefined}

-- The width of an access by its size bits; `none` is undefined.
unfoldable pub width_of : ℕ → Bool → Option Width
width_of size flag_signed =
    if size == 0b10
    then (if flag_signed then none else some width_32)
    else if size == 0b00
    then some width_8
    else if size == 0b01
    then some width_16
    else none

-- PC +/- imm12 (PC-relative).
unfoldable pub single_literal : ℕ → ℕ → Width → Op (Unit {0})
single_literal hw1 hw2 width =
    if not (is_width_32 width) || not (flag hw1 4) then undo_undefined else (do
      at ← reg pc
      let base = align4 (sub32 at 1)
      let address = if flag hw1 7 then u32 (base + field hw2 0 12) else sub32 base (field hw2 0 12)
      transfer_reg address (type_of (flag hw1 4)) (field hw2 12 4) width (flag hw1 8))

-- T2: LDR.W / STR.W (register).
unfoldable pub single_register : ℕ → ℕ → Width → Op (Unit {0})
single_register hw1 hw2 width = do
  base ← reg (field hw1 0 4)
  off ← reg (field hw2 0 4)
  transfer_reg (u32 (base + u32 (off <<< field hw2 4 2))) (type_of (flag hw1 4)) (field hw2 12 4)
      width (flag hw1 8)

-- T4: LDR.W / STR.W (immediate, indexed).
unfoldable pub single_indexed : ℕ → ℕ → Width → Op (Unit {0})
single_indexed hw1 hw2 width = do
  base ← reg (field hw1 0 4)
  let offset_addr = if flag hw2 9 then u32 (base + field hw2 0 8) else sub32 base (field hw2 0 8)
  when (flag hw2 8) (set_reg (field hw1 0 4) offset_addr)
  transfer_reg (if flag hw2 10 then offset_addr else base) (type_of (flag hw1 4)) (field hw2 12 4)
      width (flag hw1 8)

-- T3: LDR.W / STR.W (immediate).
unfoldable pub single_offset : ℕ → ℕ → Width → Op (Unit {0})
single_offset hw1 hw2 width = do
  base ← reg (field hw1 0 4)
  transfer_reg (u32 (base + field hw2 0 12)) (type_of (flag hw1 4)) (field hw2 12 4) width
      (flag hw1 8)

-- Load and store single data item, and memory hints.
unfoldable pub single : ℕ → ℕ → Op (Unit {0})
unfolding width_of
single hw1 hw2 m = elim (width_of (field hw1 5 2) (flag hw1 8)) [
  | none ↦ undo_undefined m
  | some width ↦
      (if field hw1 0 4 == pc
          then single_literal hw1 hw2 width
          else if flag hw1 7
          then single_offset hw1 hw2 width
          else if field hw2 6 6 == 0
          then single_register hw1 hw2 width
          else if flag hw2 11
          then single_indexed hw1 hw2 width
          else undo_undefined)
        m
]
