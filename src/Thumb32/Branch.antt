-- ===== src/Thumb32/Branch.antt =====
-- `machine_step` of machine.c, the 32-bit branches and MRS. The shifts that sign-extend an offset
-- are those of `int32_t`, which wrap on the compilers that the program is built with.
pub mod Laws
use emculator.Prelude.{
  ℕ, ◌+◌, Bool, true, not, bool_ne, ◌&&◌, ◌||◌, ◌==◌, if◌then◌else◌, bit_or, Option, none, some,
}
use emculator.Word.{is_neg, u32, sub32, ◌<<<◌, ◌>>>◌, field, flag, sar}
use emculator.Machine.{pure, undefined, Op, when, ◌>>=◌, ◌>>◌, get, reg, set_reg, pc, lr, sp}
use emculator.Alu.Condition.{condition}
use emculator.Backtrace.{add_backtrace}
use emculator.Thumb32.Common.{undo_undefined}

-- The offset of BL, from 21 bits in two halves.
unfoldable pub bl_offset : ℕ → ℕ → ℕ
bl_offset hw1 hw2 = sar (u32 (bit_or (field hw1 0 10 <<< 12) (field hw2 0 11 <<< 1) <<< 10)) 10

-- a + b on int32_t, where an overflow is undefined.
unfoldable pub add_int32 : ℕ → ℕ → Op ℕ
add_int32 a b =
    let sum = u32 (a + b) in
    if bool_ne (is_neg a) (is_neg b) || not (bool_ne (is_neg a) (is_neg sum))
    then pure sum
    else undefined

-- BL and B.W.
unfoldable pub branch_link : ℕ → ℕ → Op (Unit {0})
branch_link hw1 hw2 = do
  at ← reg pc
  stack ← reg sp
  new_pc ← add_int32 at (bl_offset hw1 hw2)
  add_backtrace (sub32 at 5) stack
  when (flag hw2 14) (set_reg lr at)
  set_reg pc new_pc

-- MRS, of the main stack pointer only.
unfoldable pub move_special : ℕ → ℕ → Op (Unit {0})
move_special hw1 hw2 =
    if (hw1 == 0xf3ef) && (hw2 >>> 12 == 0b1000)
    then (if field hw2 0 8 == 0x08
        then (do stack ← reg sp; set_reg (field hw2 8 4) stack)
        else undo_undefined)
    else undo_undefined

-- `(s << 20) | (j2 << 19) | (j1 << 18) | (imm6 << 12) | (imm11 << 1)`, sign-extended.
unfoldable pub cond_offset : ℕ → ℕ → ℕ
cond_offset hw1 hw2 =
    let s = field hw1 10 1 in
    let j1 = field hw2 13 1 in
    let j2 = field hw2 11 1 in
    let bits =
      bit_or (bit_or (bit_or (bit_or (s <<< 20) (j2 <<< 19)) (j1 <<< 18)) (field hw1 0 6 <<< 12))
        (field hw2 0 11 <<< 1) in
    sar (u32 (bits <<< 11)) 11

-- `if (machine_condition(machine, cond))`: the -1 of an invalid condition counts as true.
abbrev pub taken : Option Bool → Bool
taken none = true
taken (some b) = b

-- T3: B (conditional branch).
unfoldable pub branch_conditional : ℕ → ℕ → Op (Unit {0})
unfolding move_special
branch_conditional hw1 hw2 = if field hw1 6 4 >>> 1 == 0b111 then move_special hw1 hw2 else (do
  at ← reg pc
  new_pc ← add_int32 at (cond_offset hw1 hw2)
  m ← get
  when (taken (condition m.psr (field hw1 6 4))) (set_reg pc new_pc))
