-- ===== src/Thumb16/Transfer.antt =====
-- `machine_step` of machine.c, the 16-bit load and store formats 6 to 11, 14 and 15.
use emculator.Prelude.{ℕ, ◌+◌, ◌*◌, ◌/◌, ◌^◌, Bool, true, false, not, ◌==◌, if◌then◌else◌, bit_or}
use emculator.Word.{u32, ◌<<<◌, field, flag}
use emculator.Machine.{
  TransferType, load, store, width_8, width_16, width_32, Op, err_undefined, raise, ◌>>=◌,
  ignore_error, reg, pc, sp,
}
use emculator.Block.{transfer_reg, instr_ldmia, instr_stmdb, instr_stmia}

-- `flag_load ? LOAD : STORE`.
abbrev pub type_of : Bool → TransferType
type_of flag_load = if flag_load then load else store

-- x & ~3
abbrev pub align4 : ℕ → ℕ
align4 x = x / 4 * 4

-- Format 6: PC-relative load.
unfoldable pub format_6 : ℕ → Op (Unit {0})
format_6 i = do
  at ← reg pc
  transfer_reg (u32 (align4 (u32 (at + 2)) + field i 0 8 * 4)) load (field i 8 3) width_32 false

-- Format 7: Load/store with register offset.
unfoldable pub format_7 : ℕ → ℕ → Op (Unit {0})
format_7 i address =
    transfer_reg address (type_of (flag i 11)) (field i 0 3)
      (if flag i 10 then width_8 else width_32) false

-- Format 8: Load/store sign-extended byte/halfword.
unfoldable pub format_8 : ℕ → ℕ → Op (Unit {0})
format_8 i address =
    if flag i 10
    then (if flag i 11
        then transfer_reg address load (field i 0 3) width_16 true
        else transfer_reg address load (field i 0 3) width_8 true)
    else transfer_reg address (type_of (flag i 11)) (field i 0 3) width_16 false

unfoldable pub format_7_8 : ℕ → Op (Unit {0})
unfolding format_7 format_8
format_7_8 i = do
  base ← reg (field i 3 3)
  offset ← reg (field i 6 3)
  if field i 9 1 == 0 then format_7 i (u32 (base + offset)) else format_8 i (u32 (base + offset))

-- Format 9: load/store with immediate offset.
unfoldable pub format_9 : ℕ → Op (Unit {0})
format_9 i = do
  base ← reg (field i 3 3)
  if flag i 12
      then transfer_reg (u32 (base + field i 6 5)) (type_of (flag i 11)) (field i 0 3) width_8 false
      else transfer_reg (u32 (base + field i 6 5 * 4)) (type_of (flag i 11)) (field i 0 3) width_32
          false

-- Format 10: load/store halfword.
unfoldable pub format_10 : ℕ → Op (Unit {0})
format_10 i = do
  base ← reg (field i 3 3)
  transfer_reg (u32 (base + (field i 6 5 <<< 1))) (type_of (flag i 11)) (field i 0 3) width_16 false

-- Format 11: SP-relative load/store.
unfoldable pub format_11 : ℕ → Op (Unit {0})
format_11 i = do
  stack ← reg sp
  transfer_reg (u32 (stack + field i 0 8 * 4)) (type_of (flag i 11)) (field i 8 3) width_32 false

-- Format 14: push/pop registers.
unfoldable pub format_14 : ℕ → Op (Unit {0})
format_14 i =
    if flag i 11
    then instr_ldmia sp (if flag i 8 then bit_or (field i 0 8) (2 ^ 15) else field i 0 8) true
    else instr_stmdb sp (if flag i 8 then bit_or (field i 0 8) (2 ^ 14) else field i 0 8) true

-- Format 15: multiple load/store. The error codes of the two calls are dropped.
unfoldable pub format_15 : ℕ → Op (Unit {0})
format_15 i m =
    if field i 0 8 == 0
    then raise err_undefined m
    else if flag i 11
    then ignore_error (instr_ldmia (field i 8 3) (field i 0 8) (not (flag i (field i 8 3))) m)
    else ignore_error (instr_stmia (field i 8 3) (field i 0 8) true m)
