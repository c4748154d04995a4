-- ===== src/Thumb16/Data.antt =====
-- `machine_step` of machine.c, the 16-bit data processing formats 1 to 5 and the extensions.
-- `in_it` is `inITBlock`: inside an IT block these instructions leave the flags alone.
pub mod Laws
use emculator.Prelude.{
  ℕ, ◌+◌, ◌*◌, Bool, true, false, not, ◌==◌, if◌then◌else◌, bit_and, bit_or, bit_xor,
}
use emculator.Word.{u32, sub32, not32, ◌<<<◌, field, flag, sar}
use emculator.Machine.{
  Op, err_undefined, raise, pure, skip, when, ◌>>=◌, ◌>>◌, reg, set_reg, set_nz, pc, lr, sp,
}
use emculator.Alu.Shift.{instr_lsl, instr_lsr, instr_asr}
use emculator.Alu.Arith.{instr_add, instr_adc, instr_sub, instr_sbc}
use emculator.Alu.{assign}
use emculator.Backtrace.{add_backtrace}

-- `if (setflags) { psr.n = ...*dst...; psr.z = ...; }`
abbrev pub flags_of : ℕ → Bool → Op (Unit {0})
flags_of dst setflags = when setflags (do x ← reg dst; set_nz x)

-- The shift amount of an immediate shift to the right: 0 encodes 32.
abbrev pub right_amount : ℕ → ℕ
right_amount imm5 = if imm5 == 0 then 32 else imm5

-- Format 1: move shifted register.
unfoldable pub shifted_register : ℕ → Bool → Op (Unit {0})
shifted_register i setflags = do
  x ← reg (field i 3 3)
  y ←
      if field i 11 2 == 0
      then instr_lsl x (field i 6 5) setflags
      else if field i 11 2 == 1
      then instr_lsr x (right_amount (field i 6 5)) setflags
      else instr_asr x (right_amount (field i 6 5)) setflags
  set_reg (field i 0 3) y

-- Format 2: add/subtract.
unfoldable pub add_subtract : ℕ → Bool → Op (Unit {0})
add_subtract i setflags = do
  value ← if flag i 10 then pure (field i 6 3) else reg (field i 6 3)
  x ← reg (field i 3 3)
  y ← if flag i 9 then instr_sub x value setflags else instr_add x value setflags
  set_reg (field i 0 3) y

unfoldable pub format_1_2 : ℕ → Bool → Op (Unit {0})
format_1_2 i in_it = do
  if field i 11 2 == 3 then add_subtract i (not in_it) else shifted_register i (not in_it)
  flags_of (field i 0 3) (not in_it)

-- Format 3: move/compare/add/subtract immediate.
unfoldable pub format_3 : ℕ → Bool → Op (Unit {0})
format_3 i in_it =
    let r = field i 8 3 in
    let imm = field i 0 8 in
    do
      more ←
          if field i 11 2 == 0
          then assign r imm (not in_it)
          else if field i 11 2 == 1
          then (do x ← reg r; _ ← instr_sub x imm true; pure false)
          else if field i 11 2 == 2
          then (do x ← reg r; y ← instr_add x imm (not in_it); assign r y (not in_it))
          else (do x ← reg r; y ← instr_sub x imm (not in_it); assign r y (not in_it))
      flags_of r more

-- Format 4, on `d` and `s`, the values of the two registers.
unfoldable pub alu_16 : ℕ → ℕ → ℕ → ℕ → Bool → Op Bool
alu_16 op dst d s setflags =
    if op == 0b0000
    then assign dst (bit_and d s) setflags
    else if op == 0b0001
    then assign dst (bit_xor d s) setflags
    else if op == 0b0010
    then (do y ← instr_lsl d (field s 0 8) setflags; assign dst y setflags)
    else if op == 0b0011
    then (do y ← instr_lsr d (field s 0 8) setflags; assign dst y setflags)
    else if op == 0b0100
    then (do y ← instr_asr d (field s 0 8) setflags; assign dst y setflags)
    else if op == 0b0101
    then (do y ← instr_adc d s setflags; assign dst y setflags)
    else if op == 0b0110
    then (do y ← instr_sbc d s setflags; assign dst y setflags)
    else if op == 0b1000
    then (do set_nz (bit_and s d); pure false)
    else if op == 0b1001
    then (do y ← instr_sub 0 s setflags; assign dst y setflags)
    else if op == 0b1010
    then (do _ ← instr_sub d s true; pure false)
    else if op == 0b1011
    then (do _ ← instr_add d s true; pure false)
    else if op == 0b1100
    then assign dst (bit_or d s) setflags
    else if op == 0b1101
    then assign dst (u32 (d * s)) setflags
    else if op == 0b1110
    then assign dst (bit_and d (not32 s)) setflags
    else if op == 0b1111
    then assign dst (not32 s) setflags
    else raise err_undefined

-- Format 4: ALU operations.
unfoldable pub format_4 : ℕ → Bool → Op (Unit {0})
format_4 i in_it = do
  d ← reg (field i 0 3)
  s ← reg (field i 3 3)
  more ← alu_16 (field i 6 4) (field i 0 3) d s (not in_it)
  flags_of (field i 0 3) more

-- A register number with its high bit.
abbrev pub high : Bool → ℕ → ℕ
high h r = if h then r + 8 else r

-- BX and BLX.
unfoldable pub branch_exchange : ℕ → Op (Unit {0})
branch_exchange i = if not (field i 0 3 == 0) then raise err_undefined else (do
  at ← reg pc
  stack ← reg sp
  when (flag i 7) (add_backtrace (sub32 at 3) stack)
  target ← reg (high (flag i 6) (field i 3 3))
  set_reg pc target
  when (flag i 7) (set_reg lr at))

-- Format 5: Hi register operations/branch exchange.
unfoldable pub format_5 : ℕ → Op (Unit {0})
format_5 i =
    let src = high (flag i 6) (field i 3 3) in
    let dst = high (flag i 7) (field i 0 3) in
    if field i 8 2 == 3
    then branch_exchange i
    else if field i 8 2 == 0
    then (do d ← reg dst; s ← reg src; set_reg dst (u32 (d + s)))
    else if field i 8 2 == 1
    then (do d ← reg dst; s ← reg src; _ ← instr_sub d s true; skip)
    else (do s ← reg src; set_reg dst (if dst == pc then bit_or s 1 else s))

-- Sign or zero extend.
unfoldable pub extend_16 : ℕ → Op (Unit {0})
extend_16 i = do
  x ← reg (field i 3 3)
  set_reg (field i 0 3) (
      if field i 6 2 == 0b00
      then sar (u32 (x <<< 16)) 16
      else if field i 6 2 == 0b01
      then sar (u32 (x <<< 24)) 24
      else if field i 6 2 == 0b10
      then field x 0 16
      else field x 0 8)

-- `(x >> 0 & 0xff) << 24 | ... | (x >> 24 & 0xff) << 0`.
abbrev pub reverse_bytes : ℕ → ℕ
reverse_bytes x =
    bit_or (bit_or (bit_or (field x 0 8 <<< 24) (field x 8 8 <<< 16)) (field x 16 8 <<< 8))
      (field x 24 8)

-- REV.
unfoldable pub reverse_16 : ℕ → Op (Unit {0})
reverse_16 i =
    if field i 6 2 == 0b00
    then (do x ← reg (field i 3 3); set_reg (field i 0 3) (reverse_bytes x))
    else raise err_undefined
