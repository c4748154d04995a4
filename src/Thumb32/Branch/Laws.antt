-- ===== src/Thumb32/Branch/Laws.antt =====
-- Calls and returns, and the two forms of the conditional branch.
use emculator.Prelude.{
  ◌/◌, ◌-◌, ◌≤◌, ◌⊎◌, ◌==◌, bit_or, ℕ, ◌+◌, ◌*◌, ◌^◌, ◌≡◌, ◌<◌, true, Option, none, some, lt→ltb,
  arith, refl,
}
use emculator.Word.{◌<<<◌, sar, ◌>>>◌, u32, sign_extend, field, flag}
use emculator.Word.Bits.{bit_or-add}
use emculator.Machine.{
  Machine, Run, ok, err, ub, exited, err_undefined, with_reg, pc, reg, ◌>>◌, Flags,
}
use emculator.Backtrace.{add_backtrace}
use emculator.Alu.Condition.{condition}
use emculator.Thumb16.Data.{branch_exchange, format_5}
use emculator.Thumb16.Misc.{format_16}
use emculator.Thumb32.Branch.{add_int32, bl_offset, branch_link, branch_conditional, cond_offset}

-- The offset that the architecture gives a BL or B.W with J1 and J2 set, the only ones that are
-- decoded as such: SignExtend(S:I1:I2:imm10:imm11:0), where I1 and I2 are then both S.
abbrev pub branch_offset : ℕ → ℕ → ℕ → ℕ
branch_offset s imm10 imm11 =
    sign_extend 25 (s * 2 ^ 24 + s * 2 ^ 23 + s * 2 ^ 22 + imm10 * 2 ^ 12 + imm11 * 2)

-- For the two halfwords of a BL (`link` 1) or B.W (`link` 0) with J1 and J2 set, the offset is the
-- number that `imm10` and `imm11` make, sign-extended from 22 bits whatever the sign bit S is; so it
-- is the architecture's exactly where S repeats the top bit of `imm10`.
pub bl_offset-branch_offset :
    (s link imm10 imm11 : ℕ)
    → s < 2
    → link < 2
    → imm10 < 2 ^ 10
    → imm11 < 2 ^ 11
    → let hw1 = 0xf000 + s * 2 ^ 10 + imm10 in
      let hw2 = 0xb800 + link * 2 ^ 14 + imm11 in
      (bl_offset hw1 hw2 ≡ sign_extend 22 (imm10 * 2 ^ 12 + imm11 * 2))
      × ((bl_offset hw1 hw2 == branch_offset s imm10 imm11) ≡ (s == imm10 / 2 ^ 9))
unfolding bl_offset
bl_offset-branch_offset s link imm10 imm11 p q h k = (value, rw value (ground arith))
  where
    value :
        bl_offset (0xf000 + s * 2 ^ 10 + imm10) (0xb800 + link * 2 ^ 14 + imm11)
        ≡ sign_extend 22 (imm10 * 2 ^ 12 + imm11 * 2)
    value = ground (arith, bit_or-add 12 imm10 (imm11 * 2))

-- An offset of at most `2 ^ 21` in either direction.
abbrev Near : ℕ → Type 0
Near offset = (offset < 2 ^ 21) ⊎ ((2 ^ 32 - 2 ^ 21 ≤ offset) × (offset < 2 ^ 32))

bl_offset-Near : (hw1 hw2 : ℕ) → Near (bl_offset hw1 hw2)
unfolding bl_offset
bl_offset-Near hw1 hw2 = sar-Near (bit_or (field hw1 0 10 <<< 12) (field hw2 0 11 <<< 1) <<< 10)
  where
    sar-Near : (x : ℕ) → Near (sar (u32 x) 10)
    sar-Near x = ground arith

cond_offset-Near : (hw1 hw2 : ℕ) → Near (cond_offset hw1 hw2)
unfolding cond_offset
cond_offset-Near hw1 hw2 = ground arith

-- The sum does not overflow from an address below `2 ^ 30`, as those of the flash and the SRAM are.
add_int32-Near :
    (a b : ℕ) (m : Machine) → a < 2 ^ 30 → Near b → add_int32 a b m ≡ ok (u32 (a + b)) m
unfolding add_int32
add_int32-Near a b m h near = ground arith

-- What an operation returns, where it returns.
abbrev pub value_of : {A : Type 0} → Run A → Option A
value_of (ok a m) = some a
value_of (err e m) = none
value_of (exited m) = none
value_of ub = none

-- BX LR.
abbrev pub bx_lr : ℕ
bx_lr = 0x4770

-- With room in the `int` of the call depth and at an address below 2 ^ 30, a BL continues at the address that its offset gives, and
-- a BX LR there comes back to the instruction behind the BL.
pub branch_link-bx_lr :
    (hw1 hw2 : ℕ) (m : Machine)
    → flag hw2 14 ≡ true
    → m.call_depth + 1 < 2 ^ 31
    → m.regs pc < 2 ^ 30
    → (value_of ((branch_link hw1 hw2 >> reg pc) m) ≡ some (u32 (m.regs pc + bl_offset hw1 hw2)))
      × (value_of ((branch_link hw1 hw2 >> (format_5 bx_lr >> reg pc)) m) ≡ some (m.regs pc))
unfolding branch_link add_backtrace format_5 branch_exchange
branch_link-bx_lr hw1 hw2 m link room low =
    rw
      (
        add_int32-Near (m.regs pc) (bl_offset hw1 hw2) m low (bl_offset-Near hw1 hw2),
        lt→ltb _ _ room,
        link,
      )
      (refl, refl)

condition-none : (f : Flags) (cond : ℕ) → cond >>> 1 ≡ 3 → condition f cond ≡ none
unfolding condition
condition-none f cond h = ground arith

-- The conditions of the overflow flag, BVS and BVC, are those of an undefined instruction in the 16-bit
-- form of a conditional branch, and in the 32-bit form, at an address below 2 ^ 30, the branch is taken
-- whatever the flag is.
pub branch_conditional-format_16 :
    (hw1 hw2 i : ℕ) (m : Machine)
    → field hw1 6 4 >>> 1 ≡ 3
    → field i 8 4 >>> 1 ≡ 3
    → m.regs pc < 2 ^ 30
    → (branch_conditional hw1 hw2 m ≡ ok tt (with_reg m pc (u32 (m.regs pc + cond_offset hw1 hw2))))
      × (format_16 i m ≡ err err_undefined m)
unfolding branch_conditional format_16
branch_conditional-format_16 hw1 hw2 i m h k low = (
  rw h (
      rw
        (
          add_int32-Near (m.regs pc) (cond_offset hw1 hw2) m low (cond_offset-Near hw1 hw2),
          condition-none m.psr (field hw1 6 4) h,
        )
        refl),
  rw (format_16, condition-none m.psr (field i 8 4) k) refl,
)
