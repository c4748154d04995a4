-- ===== src/Thumb32/Register.antt =====
-- `machine_step` of machine.c, the 32-bit data processing instructions on registers.
pub mod Laws
use emculator.Prelude.{
  ℕ, zero, suc, ◌+◌, ◌-◌, ◌*◌, ◌/◌, ◌%◌, ◌^◌, not, ◌&&◌, ◌||◌, ◌==◌, ltb, bool_ne, if◌then◌else◌,
  bit_and,
}
use emculator.Word.{u32, sub32, ◌<<<◌, ◌>>>◌, field, flag, is_neg}
use emculator.Machine.{Run, Op, err_divzero, undefined, ◌>>=◌, ◌>>◌, reg, set_reg, pc}
use emculator.Alu.Shift.{instr_lsl, instr_lsr, instr_asr}
use emculator.Thumb16.Data.{flags_of}
use emculator.Thumb32.Common.{undo, undo_undefined}

-- Register-controlled shift.
unfoldable pub shift_register : ℕ → ℕ → Op (Unit {0})
shift_register hw1 hw2 =
    let op = field hw1 5 2 in
    let dst = field hw2 8 4 in
    if not (field hw2 4 3 == 0b000) || (op == 0b11) then undo_undefined else (do
      x ← reg (field hw1 0 4)
      s ← reg (field hw2 0 4)
      y ←
          if op == 0b00
          then instr_lsl x (field s 0 8) (flag hw1 4)
          else if op == 0b01
          then instr_lsr x (field s 0 8) (flag hw1 4)
          else instr_asr x (field s 0 8) (flag hw1 4)
      set_reg dst y
      flags_of dst (flag hw1 4))

-- Sign or zero extension, with optional addition: one form is implemented.
unfoldable pub extend_register : ℕ → ℕ → Op (Unit {0})
extend_register hw1 hw2 =
    if (field hw1 4 3 == 0b101) && (field hw1 0 4 == pc)
    then (do x ← reg (field hw2 0 4); set_reg (field hw2 8 4) (x >>> (field hw2 4 2 <<< 3)))
    else undo_undefined

-- `__builtin_clz` of a number of `width` bits that is not 0: the zeroes above its highest one. An
-- `int` has 32 bits on the platforms that the program is built for, so the fallback with a loop is
-- not compiled.
unfoldable pub builtin_clz : ℕ → ℕ → ℕ
builtin_clz zero x = 0
builtin_clz (suc width) x = if flag x width then 0 else suc (builtin_clz width x)

-- CLZ.
unfoldable pub count_leading : ℕ → ℕ → Op (Unit {0})
count_leading hw1 hw2 =
    if (field hw1 4 3 == 0b011) && (field hw2 4 3 == 0b000)
    then (do
      x ← reg (field hw2 0 4)
      set_reg (field hw2 8 4) (if x == 0 then 32 else builtin_clz 32 x))
    else undo_undefined

-- MUL, MLA and MLS.
unfoldable pub multiply : ℕ → ℕ → Op (Unit {0})
multiply hw1 hw2 =
    let op = field hw1 4 3 in
    let op2 = field hw2 4 4 in
    let dst = field hw2 8 4 in
    let acc = field hw2 12 4 in
    do
      x ← reg (field hw1 0 4)
      y ← reg (field hw2 0 4)
      a ← reg acc
      if (op == 0b000) && (op2 == 0b0000)
          then set_reg dst (if acc == pc then u32 (x * y) else u32 (u32 (x * y) + a))
          else if (op == 0b000) && (op2 == 0b0001) && not (acc == pc)
          then set_reg dst (sub32 a (u32 (x * y)))
          else undo_undefined

-- `int32_t` division truncates; the quotient of -2 ^ 31 by -1 is undefined.
unfoldable pub divide_signed : ℕ → ℕ → Op ℕ
divide_signed x y m =
    let abs = λ (w : ℕ). if is_neg w then sub32 0 w else w in
    let q = abs x / abs y in
    if (x == 2 ^ 31) && (y == 2 ^ 32 - 1)
    then Run.ub
    else Run.ok (if bool_ne (is_neg x) (is_neg y) then sub32 0 q else q) m

-- SMULL, UMULL, SDIV and UDIV. The operands of the two products are converted from `uint32_t`, so
-- both are non-negative; the first product is undefined where it does not fit an `int64_t`.
unfoldable pub multiply_long : ℕ → ℕ → Op (Unit {0})
unfolding divide_signed
multiply_long hw1 hw2 =
    let op = field hw1 4 3 in
    let op2 = field hw2 4 4 in
    let hi = field hw2 8 4 in
    let lo = field hw2 12 4 in
    do
      x ← reg (field hw1 0 4)
      y ← reg (field hw2 0 4)
      if (op == 0b000) && (op2 == 0b0000)
          then (if ltb (x * y) (2 ^ 63)
              then (do set_reg lo (u32 (x * y)); set_reg hi (u32 (x * y >>> 32)))
              else undefined)
          else if (op == 0b010) && (op2 == 0b0000)
          then (do set_reg lo (u32 (x * y)); set_reg hi (u32 ((x * y % 2 ^ 64) >>> 32)))
          else if (op == 0b001) && (op2 == 0b1111)
          then (if y == 0 then undo err_divzero else (do q ← divide_signed x y; set_reg hi q))
          else if (op == 0b011) && (op2 == 0b1111)
          then (if y == 0 then undo err_divzero else set_reg hi (x / y))
          else undo_undefined

-- Data processing instructions, non-immediate (except for Data processing: constant shift).
unfoldable pub data_register : ℕ → ℕ → Op (Unit {0})
data_register hw1 hw2 =
    let group = hw1 >>> 7 in
    let kind = bit_and (hw2 >>> 7) 0b111100001 in
    if (group == 0b111110100) && (kind == 0b111100000)
    then shift_register hw1 hw2
    else if (group == 0b111110100) && (kind == 0b111100001)
    then extend_register hw1 hw2
    else if (group == 0b111110101) && (kind == 0b111100001)
    then count_leading hw1 hw2
    else if group == 0b111110110
    then multiply hw1 hw2
    else if group == 0b111110111
    then multiply_long hw1 hw2
    else undo_undefined
