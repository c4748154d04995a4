-- ===== src/Thumb32/Multiple.antt =====
-- `machine_step` of machine.c, the 32-bit instructions with prefix 11101: multiple and double
-- loads and stores, table branches, and data processing with a constant shift.
use emculator.Prelude.{
  ℕ, ◌+◌, ◌*◌, ◌/◌, Bool, false, not, ◌&&◌, ◌||◌, ◌==◌, if◌then◌else◌, bit_and, bit_or,
}
use emculator.Word.{u32, sub32, ◌<<<◌, ◌>>>◌, field, flag}
use emculator.Machine.{
  load, Width, width_8, width_16, width_32, Op, when, ◌>>=◌, ◌>>◌, reg, set_reg, pc,
}
use emculator.Memory.{machine_transfer}
use emculator.Block.{transfer_reg, instr_stmdb, instr_stmia, instr_ldmdb, instr_ldmia}
use emculator.Alu.Shift.{instr_lsl, instr_lsr, instr_asr}
use emculator.Alu.{alu_op}
use emculator.Thumb16.Data.{right_amount}
use emculator.Thumb16.Transfer.{type_of, align4}
use emculator.Thumb32.Common.{undo_undefined, undo_on_error}

-- STMDB and LDMDB.
unfoldable pub multiple_before : ℕ → ℕ → Op (Unit {0})
multiple_before hw1 hw2 =
    if not (flag hw1 4)
    then instr_stmdb (field hw1 0 4) hw2 (flag hw1 5)
    else instr_ldmdb (field hw1 0 4) hw2 (flag hw1 5)

-- LDMIA and STMIA.
unfoldable pub multiple_after : ℕ → ℕ → Op (Unit {0})
multiple_after hw1 hw2 =
    if flag hw1 4
    then instr_ldmia (field hw1 0 4) hw2 (flag hw1 5)
    else instr_stmia (field hw1 0 4) hw2 (flag hw1 5)

-- LDRD and STRD.
unfoldable pub transfer_double : ℕ → ℕ → Op (Unit {0})
transfer_double hw1 hw2 =
    let src = field hw1 0 4 in
    let imm8 = field hw2 0 8 in
    do
      x ← reg src
      let base = if src == pc then align4 x else x
      let offset_addr = if flag hw1 7 then u32 (base + imm8) else sub32 base imm8
      let start = if src == pc then x / 2 * 2 else x
      let address = if flag hw1 8 then offset_addr else start
      when (flag hw1 5) (set_reg src offset_addr)
      transfer_reg address (type_of (flag hw1 4)) (field hw2 12 4) width_32 false
      transfer_reg (u32 (address + 4)) (type_of (flag hw1 4)) (field hw2 8 4) width_32 false

-- TBB with `scale` 0 and TBH with `scale` 1. The load's old value is a local without one.
unfoldable pub table_branch : ℕ → Width → ℕ → ℕ → Op (Unit {0})
table_branch scale width hw1 hw2 = do
  x ← reg (field hw1 0 4)
  let baseaddr = if field hw1 0 4 == pc then sub32 x 1 else x
  y ← reg (field hw2 0 4)
  halfwords ← machine_transfer (u32 (baseaddr + u32 (y <<< scale))) load 0 width false
  at ← reg pc
  set_reg pc (u32 (at + u32 (halfwords <<< 1)))

-- Load/store double and exclusive, and table branch.
unfoldable pub double_or_table : ℕ → ℕ → Op (Unit {0})
double_or_table hw1 hw2 =
    if flag hw1 8 || flag hw1 5
    then transfer_double hw1 hw2
    else if not (flag hw1 7)
    then undo_undefined
    else if (field hw2 4 4 == 0b0000) && flag hw1 4
    then table_branch 0 width_8 hw1 hw2
    else if (field hw2 4 4 == 0b0001) && flag hw1 4
    then table_branch 1 width_16 hw1 hw2
    else undo_undefined

-- `(imm3 << 2) | imm2`.
abbrev pub imm5_of : ℕ → ℕ
imm5_of hw2 = bit_or (field hw2 12 3 <<< 2) (field hw2 6 2)

-- The `switch` on the type of the shift; `none` of its cases is ROR.
unfoldable pub shifted_operand : ℕ → ℕ → ℕ → Bool → Op ℕ
shifted_operand type x imm5 flag_set =
    if type == 0b00
    then instr_lsl x imm5 flag_set
    else if type == 0b01
    then instr_lsr x (right_amount imm5) flag_set
    else instr_asr x (right_amount imm5) flag_set

-- Data processing instructions with constant shift.
unfoldable pub data_shifted : ℕ → ℕ → Op (Unit {0})
data_shifted hw1 hw2 = if field hw2 4 2 == 0b11 then undo_undefined else (do
  x ← reg (field hw2 0 4)
  shifted ← shifted_operand (field hw2 4 2) x (imm5_of hw2) (flag hw1 4)
  undo_on_error (alu_op (field hw1 5 4) (field hw2 8 4) (field hw1 0 4) shifted (flag hw1 4)))

-- The second halfword is fetched and the program counter is past it.
unfoldable pub thumb32_11101 : ℕ → ℕ → Op (Unit {0})
thumb32_11101 hw1 hw2 =
    if hw1 >>> 6 == 0b1110100100
    then multiple_before hw1 hw2
    else if hw1 >>> 6 == 0b1110100010
    then multiple_after hw1 hw2
    else if bit_and (hw1 >>> 6) 0b1111111001 == 0b1110100001
    then double_or_table hw1 hw2
    else if hw1 >>> 9 == 0b1110101
    then data_shifted hw1 hw2
    else undo_undefined
