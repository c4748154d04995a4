-- ===== src/Tests/Alu.antt =====
-- Witnesses for the arithmetic, the shifts and the conditions.
use emculator.Prelude.{◌≡◌, true, arith, some}
use emculator.Word.{not32, sub32}
use emculator.Machine.{Machine, ok, with_psr, ub}
use emculator.Alu.Arith.{instr_add, instr_adc, instr_sub, instr_sbc}
use emculator.Alu.AddWithCarry.{
  Gives, add_with_carry, instr_add-Sum, instr_adc-Sum, instr_sub-Sum, instr_sbc-Sum,
}
use emculator.Alu.Compare.{condition-compares}
use emculator.Alu.Condition.{condition}
use emculator.Alu.Shift.{instr_lsl, instr_lsr, instr_asr}
use emculator.Alu.Shift.Laws.{with_carry, instr_lsl-lsl_c, instr_lsr-lsr_c, shift_undefined}
use emculator.Tests.Samples.{board}

instr_add-Sum_example : Gives (instr_add 0x7fffffff 1 true) board (add_with_carry 0x7fffffff 1 0)
instr_add-Sum_example = instr_add-Sum 0x7fffffff 1 board (omega arith) (omega arith)

instr_adc-Sum_example : Gives (instr_adc 0xffffffff 1 true) board (add_with_carry 0xffffffff 1 0)
instr_adc-Sum_example = instr_adc-Sum 0xffffffff 1 board (omega arith) (omega arith)

instr_sub-Sum_example :
    Gives (instr_sub 3 0x80000000 true) board (add_with_carry 3 (not32 0x80000000) 1)
instr_sub-Sum_example = instr_sub-Sum 3 0x80000000 board (omega arith) (omega arith)

instr_sbc-Sum_example : Gives (instr_sbc 3 3 true) board (add_with_carry 3 (not32 3) 0)
instr_sbc-Sum_example = instr_sbc-Sum 3 3 board (omega arith) (omega arith)

condition-compares_example :
    (m' : Machine) × (instr_sub 3 0xffffffff true board ≡ ok (sub32 3 0xffffffff) m')
    × (m' ≡ with_psr board m'.psr)
    × (condition m'.psr 0b1100 ≡ some true)
condition-compares_example =
    condition-compares 3 0xffffffff (omega arith) (omega arith) board 0b1100

instr_lsl-lsl_c_example : instr_lsl 0x80000001 1 true board ≡ ok 2 (with_carry board true)
instr_lsl-lsl_c_example = instr_lsl-lsl_c 0x80000001 1 board (omega arith) (omega arith)

instr_lsr-lsr_c_example : instr_lsr 0x80000001 32 true board ≡ ok 0 (with_carry board true)
instr_lsr-lsr_c_example =
    instr_lsr-lsr_c 0x80000001 32 board (omega arith) (omega arith) (omega arith)

shift_undefined_example : (instr_lsl 1 33 true board ≡ ub) × (instr_asr 1 0 true board ≡ ub)
shift_undefined_example = shift_undefined 1 33 board (omega arith) (omega arith)
