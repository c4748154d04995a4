-- ===== src/Step.antt =====
-- `machine_step` of machine.c: the checks on the program counter, the fetch, the IT block, and the
-- choice of the instruction's format.
pub mod Guards
pub mod Dispatch
use emculator.Prelude.{
  ℕ, ◌+◌, ◌*◌, ◌/◌, ◌%◌, Bool, true, false, not, ◌&&◌, ◌||◌, ◌==◌, leb, ltb, if◌then◌else◌, bit_and,
  none, some,
}
use emculator.Word.{u32, sub32, sub64, ◌>>>◌, field}
use emculator.Machine.{
  Machine, Op, ok, err, ub, err_undefined, err_break, err_exit, err_pc, raise, skip, when, ◌>>=◌,
  reg, set_reg, with_reg, with_psr, pc,
}
use emculator.Memory.Bytes.{read_le}
use emculator.Alu.Condition.{condition}
use emculator.It.{it_state, next_state}
use emculator.Thumb16.Data.{format_1_2, format_3, format_4, format_5, extend_16, reverse_16}
use emculator.Thumb16.Transfer.{
  format_6, format_7_8, format_9, format_10, format_11, format_14, format_15,
}
use emculator.Thumb16.Misc.{
  format_12, format_13, compare_branch, breakpoint, set_it_state, if_then, format_16, format_18,
}
use emculator.Thumb32.Multiple.{thumb32_11101}
use emculator.Thumb32.{thumb32_1111}

-- `machine->image16[*pc/2]; *pc += 2;`
unfoldable pub fetch : Op ℕ
fetch m =
    if leb (m.regs pc / 2 * 2 + 2) m.image_size
    then ok (read_le m.image (m.regs pc / 2 * 2) 2) (with_reg m pc (u32 (m.regs pc + 2)))
    else ub

-- A 32-bit instruction: the second halfword is fetched first.
unfoldable pub with_second : (ℕ → ℕ → Op (Unit {0})) → ℕ → Op (Unit {0})
with_second body hw1 = do hw2 ← fetch; body hw1 hw2

unfoldable pub is_32bit_instruction : ℕ → Bool
is_32bit_instruction i = (i >>> 11 == 0b11101) || (i >>> 12 == 0b1111)

-- Decode/execute instruction, from format 12 on.
unfoldable pub execute_rest : ℕ → Op (Unit {0})
execute_rest i =
    if i >>> 12 == 0b1010
    then format_12 i
    else if i >>> 8 == 0b10110000
    then format_13 i
    else if i >>> 8 == 0b10110010
    then extend_16 i
    else if bit_and (i >>> 8) 0b11110101 == 0b10110001
    then compare_branch i
    else if bit_and i 0xffef == 0xb662
    then skip
    else if i >>> 8 == 0b10111010
    then reverse_16 i
    else if i >>> 8 == 0b10111110
    then breakpoint i
    else if i >>> 8 == 0b10111111
    then if_then i
    else if (i >>> 12 == 0b1011) && (field i 9 2 == 0b10)
    then format_14 i
    else if i >>> 12 == 0b1100
    then format_15 i
    else if i >>> 12 == 0b1101
    then format_16 i
    else if i >>> 11 == 0b11100
    then format_18 i
    else if i >>> 11 == 0b11101
    then with_second thumb32_11101 i
    else if i >>> 12 == 0b1111
    then with_second thumb32_1111 i
    else raise err_undefined

-- Decode/execute instruction.
unfoldable pub execute : ℕ → Bool → Op (Unit {0})
execute i in_it =
    if i >>> 13 == 0b000
    then format_1_2 i in_it
    else if i >>> 13 == 0b001
    then format_3 i in_it
    else if i >>> 10 == 0b010000
    then format_4 i in_it
    else if i >>> 10 == 0b010001
    then format_5 i
    else if i >>> 11 == 0b01001
    then format_6 i
    else if i >>> 12 == 0b0101
    then format_7_8 i
    else if i >>> 13 == 0b011
    then format_9 i
    else if i >>> 12 == 0b1000
    then format_10 i
    else if i >>> 12 == 0b1001
    then format_11 i
    else execute_rest i

-- Inside an IT block: the state advances, and the instruction runs if its condition holds.
unfoldable pub execute_in_it : ℕ → Op (Unit {0})
execute_in_it i m =
    let state = it_state m.psr in
    let m' = with_psr m (set_it_state (next_state state) m.psr) in
    elim (condition m'.psr (state >>> 4)) [
      | none ↦ err err_undefined m'
      | some true ↦ execute i true m'
      | some false ↦ when (is_32bit_instruction i) (do at ← reg pc; set_reg pc (u32 (at + 2))) m'
    ]

-- One of the four hardware breakpoints is at `address`.
unfoldable pub at_break : Machine → ℕ → Bool
at_break m address =
    address == m.hwbreak 0
    || address == m.hwbreak 1
    || address == m.hwbreak 2
    || address == m.hwbreak 3

unfoldable pub dispatch : ℕ → Op (Unit {0})
dispatch i m = if not (m.psr.it2 == 0) then execute_in_it i m else execute i false m

unfoldable pub machine_step : Op (Unit {0})
machine_step m =
    if at_break m (sub32 (m.regs pc) 1)
    then err err_break m
    else if m.regs pc == 0xdeadbeef
    then err err_exit m
    else if ltb (sub64 m.image_size 2) (m.regs pc)
    then err err_pc m
    else if not (m.regs pc % 2 == 1)
    then err err_pc m
    else (do i ← fetch; dispatch i) m
