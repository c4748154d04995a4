-- ===== src/Tests/Thumb.antt =====
-- The instructions' theorems at concrete encodings.
use emculator.Prelude.{◌≡◌, refl, arith, some, true, ◌+◌}
use emculator.Word.{field, ◌>>>◌}
use emculator.Machine.{ok, err, err_undefined, with_reg, reg, pc, ◌>>◌, Machine}
use emculator.Alu.Shift.{shr32}
use emculator.Thumb16.Data.{reverse_bytes, format_5}
use emculator.Thumb16.Data.Laws.{reverse_bytes-field}
use emculator.Thumb16.Misc.{format_16}
use emculator.Thumb32.Immediate.{expand_imm, bit_field_extract}
use emculator.Thumb32.Immediate.Laws.{expand_imm-thumb_expand_imm}
use emculator.Thumb32.Immediate.Fields.{bit_field_extract-field}
use emculator.Thumb32.Branch.{bl_offset, cond_offset, branch_link, branch_conditional}
use emculator.Thumb32.Branch.Laws.{
  value_of, bx_lr, bl_offset-branch_offset, branch_offset, branch_link-bx_lr,
  branch_conditional-format_16,
}
use emculator.Prelude.{◌==◌, true, ℕ}
use emculator.Machine.{sp}
use emculator.Word.{IsU32}
use emculator.Block.{instr_stmdb, instr_ldmia}
use emculator.Block.Laws.{sram, below}
use emculator.Block.Restore.{clobbered, stmdb-ldmia}
use emculator.Tests.Samples.{board}

reverse_bytes-field_example :
    (field (reverse_bytes 0x01020384) 0 8 ≡ 1)
    × (field (reverse_bytes 0x01020384) 8 8 ≡ 2)
    × (field (reverse_bytes 0x01020384) 16 8 ≡ 3)
    × (reverse_bytes 0x01020384 >>> 24 ≡ 0x84)
reverse_bytes-field_example = reverse_bytes-field 0x01020384 (omega arith)

expand_imm-thumb_expand_imm_example : expand_imm 0x4ff ≡ 0x7f800000
expand_imm-thumb_expand_imm_example = expand_imm-thumb_expand_imm 0x4ff (omega arith)

-- UBFX r2, r1, #4, #8
bit_field_extract-field_example :
    bit_field_extract shr32 0xf3c1 0x1207 (with_reg board 1 0xabcd)
    ≡ ok tt (with_reg (with_reg board 1 0xabcd) 2 0xbc)
bit_field_extract-field_example =
    bit_field_extract-field 0xf3c1 0x1207 (with_reg board 1 0xabcd) (omega arith)

-- BL to four bytes before the next instruction.
bl_offset-branch_offset_example :
    (bl_offset 0xf7ff 0xfffe ≡ 0xfffffffc)
    × ((bl_offset 0xf7ff 0xfffe == branch_offset 1 0x3ff 0x7fe) ≡ true)
bl_offset-branch_offset_example =
    bl_offset-branch_offset 1 1 0x3ff 0x7fe (omega arith) (omega arith) (omega arith) (omega arith)

branch_link-bx_lr_example :
    (value_of ((branch_link 0xf7ff 0xfff0 >> reg pc) (with_reg board pc 0x105)) ≡ some 0xe5)
    × (value_of
          ((branch_link 0xf7ff 0xfff0 >> (format_5 bx_lr >> reg pc)) (with_reg board pc 0x105))
        ≡ some 0x105)
unfolding bl_offset
branch_link-bx_lr_example =
    branch_link-bx_lr 0xf7ff 0xfff0 (with_reg board pc 0x105) refl (omega arith) (omega arith)

-- BVS.W and BVS
branch_conditional-format_16_example :
    (branch_conditional 0xf180 0x8004 (with_reg board pc 0x105)
      ≡ ok tt (with_reg (with_reg board pc 0x105) pc 0x10d))
    × (format_16 0xd604 (with_reg board pc 0x105) ≡ err err_undefined (with_reg board pc 0x105))
unfolding cond_offset
branch_conditional-format_16_example =
    branch_conditional-format_16 0xf180 0x8004 0xd604 (with_reg board pc 0x105) refl refl
      (omega arith)

-- A machine with 7 in every register but the stack pointer, and room for three words on the stack.
abbrev stacked : Machine
stacked = with_reg (record board { regs = λ _. 7 }) sp (sram + 44)

stacked-IsU32 : (r : ℕ) → IsU32 (stacked.regs r)
stacked-IsU32 r = ground arith

-- PUSH {r0, r4, lr} and back.
stmdb-ldmia_example :
    (m' : Machine) × (instr_stmdb sp 0x4011 true stacked ≡ ok tt m')
    × (m'.regs sp ≡ sram + 32)
    × (m'' : Machine) × (instr_ldmia sp 0x4011 true (clobbered m' (λ _. 1)) ≡ ok tt m'')
    × (m''.regs 4 ≡ 7)
unfolding below
stmdb-ldmia_example =
    stmdb-ldmia 0x4011 32 stacked (λ _. 1) 4 refl (omega arith) (omega arith) refl refl
      stacked-IsU32 (omega arith)
