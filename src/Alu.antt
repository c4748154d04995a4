-- ===== src/Alu.antt =====
-- `machine_alu_op` of machine.c: the data processing operations that two Thumb-2 formats share.
pub mod Shift
pub mod Arith
pub mod Condition
pub mod AddWithCarry
pub mod Compare
use emculator.Prelude.{ℕ, Bool, true, false, ◌&&◌, ◌==◌, if◌then◌else◌, bit_and, bit_or, bit_xor}
use emculator.Word.{not32}
use emculator.Machine.{
  Machine, Run, Op, ok, err_undefined, raise, pure, skip, when, ◌>>=◌, ◌>>◌, reg, set_reg, set_nz,
  pc,
}
use Arith.{instr_add, instr_adc, instr_sub, instr_sbc}

-- `*dst = x`, and whether the flags N and Z are still to be set.
abbrev pub assign : ℕ → ℕ → Bool → Op Bool
assign dst x setflags = do set_reg dst x; pure setflags

-- The test forms, TST and TEQ: flags of `x`, and no result.
abbrev pub test_only : ℕ → Op Bool
test_only x = do set_nz x; pure false

-- The operation selected by `op`, on `*src` and `value`.
unfoldable pub alu_select : ℕ → ℕ → ℕ → ℕ → Bool → Op Bool
unfolding instr_add instr_adc instr_sub instr_sbc
alu_select op dst src value setflags =
    if op == 0b0000
    then (do
      x ← reg src
      if dst == pc && setflags
          then test_only (bit_and x value)
          else assign dst (bit_and x value) setflags)
    else if op == 0b0001
    then (do x ← reg src; assign dst (bit_and x (not32 value)) setflags)
    else if op == 0b0010
    then (do
      x ← reg src
      if src == pc then assign dst value setflags else assign dst (bit_or x value) setflags)
    else if op == 0b0011
    then (do
      x ← reg src
      if src == pc
          then assign dst (not32 value) setflags
          else assign dst (bit_or x (not32 value)) setflags)
    else if op == 0b0100
    then (do
      x ← reg src
      if dst == pc && setflags
          then test_only (bit_xor x value)
          else assign dst (bit_xor x value) setflags)
    else if op == 0b1000
    then (do
      x ← reg src
      if dst == pc && setflags
          then (do _ ← instr_add x value true; pure false)
          else (do y ← instr_add x value setflags; assign dst y setflags))
    else if op == 0b1010
    then (do x ← reg src; y ← instr_adc x value setflags; assign dst y setflags)
    else if op == 0b1011
    then (do x ← reg src; y ← instr_sbc x value setflags; assign dst y setflags)
    else if op == 0b1110
    then (do x ← reg src; y ← instr_sub value x setflags; assign dst y setflags)
    else if op == 0b1101
    then (do
      x ← reg src
      if dst == pc && setflags
          then (do _ ← instr_sub x value true; pure false)
          else (do y ← instr_sub x value setflags; assign dst y setflags))
    else raise err_undefined

unfoldable pub alu_op : ℕ → ℕ → ℕ → ℕ → Bool → Op (Unit {0})
unfolding alu_select
alu_op op dst src value setflags = do
  more ← alu_select op dst src value setflags
  when more (do x ← reg dst; set_nz x)
