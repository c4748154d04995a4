-- ===== src/Thumb32/Immediate.antt =====
-- `machine_step` of machine.c, the 32-bit data processing instructions with an immediate, and the
-- bit fields.
pub mod Laws
pub mod Fields
use emculator.Prelude.{ℕ, ◌+◌, ◌-◌, ◌^◌, Bool, not, ◌&&◌, ◌==◌, if◌then◌else◌, bit_and, bit_or}
use emculator.Word.{u32, sub32, not32, ◌<<<◌, ◌>>>◌, field, flag}
use emculator.Machine.{Op, when, ◌>>=◌, ◌>>◌, reg, set_reg, set_carry, pc}
use emculator.Alu.Shift.{shl32, shr32, sar32}
use emculator.Alu.{alu_op}
use emculator.Thumb32.Common.{undo_undefined, undo_on_error}
use emculator.Thumb32.Multiple.{imm5_of}

-- `imm8 | (imm3 << 8) | (bit_i << 11)`.
abbrev pub imm12_of : ℕ → ℕ → ℕ
imm12_of hw1 hw2 = bit_or (bit_or (field hw2 0 8) (field hw2 12 3 <<< 8)) (field hw1 10 1 <<< 11)

-- Whether the immediate is one byte, repeated or not, with no rotation.
abbrev pub is_plain : ℕ → Bool
is_plain imm12 = imm12 >>> 10 == 0

abbrev pub repeat_byte : ℕ → ℕ → ℕ
repeat_byte kind imm8 =
    if kind == 0b00
    then imm8
    else if kind == 0b01
    then bit_or (imm8 <<< 16) imm8
    else if kind == 0b10
    then bit_or (imm8 <<< 24) (imm8 <<< 8)
    else bit_or (bit_or (bit_or (imm8 <<< 24) (imm8 <<< 16)) (imm8 <<< 8)) imm8

-- ROR_C(unrotated_value, n).
abbrev pub rotate : ℕ → ℕ → ℕ
rotate x n = if n == 0 then x else bit_or (x >>> n) (u32 (x <<< (32 - n)))

-- ThumbExpandImmWithC(), the value.
unfoldable pub expand_imm : ℕ → ℕ
expand_imm imm12 =
    if is_plain imm12
    then repeat_byte (field imm12 8 2) (field imm12 0 8)
    else rotate (bit_or 0x80 (field imm12 0 7)) (imm12 >>> 7)

-- Data processing with modified 12-bit immediate.
unfoldable pub data_immediate : ℕ → ℕ → Op (Unit {0})
data_immediate hw1 hw2 =
    let imm12 = imm12_of hw1 hw2 in
    let imm32 = expand_imm imm12 in
    do
      when (not (is_plain imm12) && flag hw1 4) (set_carry (imm32 >>> 31 == 1))
      undo_on_error (alu_op (field hw1 5 4) (field hw2 8 4) (field hw1 0 4) imm32 (flag hw1 4))

-- `(imm4 << 12) | (bit_i << 11) | (imm3 << 8) | imm8`.
abbrev pub imm16_of : ℕ → ℕ → ℕ
imm16_of hw1 hw2 =
    bit_or (bit_or (bit_or (field hw1 0 4 <<< 12) (field hw1 10 1 <<< 11)) (field hw2 12 3 <<< 8))
      (field hw2 0 8)

-- Move, plain 16-bit immediate: only MOVW is implemented.
unfoldable pub move_16 : ℕ → ℕ → Op (Unit {0})
move_16 hw1 hw2 =
    if (field hw1 7 1 == 0) && (field hw1 4 2 == 0b00)
    then set_reg (field hw2 8 4) (imm16_of hw1 hw2)
    else undo_undefined

-- The bits `lsb` to `msb` of a word.
abbrev pub insert_mask : ℕ → ℕ → ℕ
insert_mask lsb msb = u32 (((2 ^ 32 - 1) >>> lsb <<< lsb) <<< (31 - msb)) >>> (31 - msb)

-- BFI, and BFC when the source is the program counter.
unfoldable pub bit_field_insert : ℕ → ℕ → Op (Unit {0})
bit_field_insert hw1 hw2 =
    let dst = field hw2 8 4 in
    let src = field hw1 0 4 in
    let lsb = imm5_of hw2 in
    let mask = insert_mask lsb (field hw2 0 5) in
    do
      x ← reg src
      d ← reg dst
      let insert = if src == pc then 0 else u32 (x <<< lsb)
      set_reg dst (bit_or (bit_and d (not32 mask)) (bit_and insert mask))

-- UBFX and SBFX, by the shift to the right.
unfoldable pub bit_field_extract : (ℕ → ℕ → Op ℕ) → ℕ → ℕ → Op (Unit {0})
bit_field_extract shift hw1 hw2 =
    let dst = field hw2 8 4 in
    let lsb = imm5_of hw2 in
    let msb = lsb + field hw2 0 5 in
    do
      x ← reg (field hw1 0 4)
      y ← shl32 x (sub32 31 msb)
      set_reg dst y
      z ← shift y (u32 (lsb + sub32 31 msb))
      set_reg dst z

-- Bit field operations, saturate with shift.
unfoldable pub bit_field : ℕ → ℕ → Op (Unit {0})
bit_field hw1 hw2 =
    if field hw1 5 3 == 0b011
    then bit_field_insert hw1 hw2
    else if field hw1 5 3 == 0b110
    then bit_field_extract shr32 hw1 hw2
    else if field hw1 5 3 == 0b010
    then bit_field_extract sar32 hw1 hw2
    else undo_undefined

-- Data processing instructions: immediate, including bitfield and saturate.
unfoldable pub immediate : ℕ → ℕ → Op (Unit {0})
immediate hw1 hw2 =
    if field hw1 9 1 == 0
    then data_immediate hw1 hw2
    else if bit_and (hw1 >>> 6) 0b1101 == 0b1001
    then move_16 hw1 hw2
    else if (field hw1 8 2 == 0b11) && (field hw1 4 1 == 0)
    then bit_field hw1 hw2
    else undo_undefined
