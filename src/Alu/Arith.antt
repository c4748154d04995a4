-- ===== src/Alu/Arith.antt =====
-- `machine_instr_add`, `machine_instr_adc`, `machine_instr_sub` and `machine_instr_sbc` of
-- machine.c: 32-bit sums and differences with the flags N, Z, C and V.
use emculator.Prelude.{ℕ, ◌+◌, ◌%◌, ◌^◌, Bool, not, ◌==◌, leb, ltb, bit, bool_ne, if◌then◌else◌}
use emculator.Word.{u32, sub32, sub64, is_neg, signed32}
use emculator.Word.Int.{ℤ, pos, ◌+ℤ◌, ◌-ℤ◌, is_neg_ℤ}
use emculator.Machine.{Flags, Op, ok, with_psr}

-- The four flags, from the 32-bit result, the carry and the exact signed result.
abbrev pub set_flags : Flags → ℕ → Bool → ℤ → Flags
set_flags f result carry result64s = record f {
  n = is_neg result;
  z = result == 0;
  c = carry;
  v = bool_ne (is_neg result) (is_neg_ℤ result64s);
}

-- `(int64_t)x >= 0` for the bit pattern `x`.
abbrev pub nonneg64 : ℕ → Bool
nonneg64 x = ltb x (2 ^ 63)

unfoldable pub instr_add : ℕ → ℕ → Bool → Op ℕ
instr_add a b setflags m =
    let result = u32 (a + b) in
    let result64s = signed32 a +ℤ signed32 b in
    let result64u = (a + b) % 2 ^ 64 in
    ok result (
      if setflags
      then with_psr m (set_flags m.psr result (leb (2 ^ 32) result64u) result64s)
      else m)

unfoldable pub instr_adc : ℕ → ℕ → Bool → Op ℕ
instr_adc a b setflags m =
    let c = bit m.psr.c in
    let result = u32 (a + b + c) in
    let result64s = signed32 a +ℤ signed32 b +ℤ pos c in
    let result64u = (a + b + c) % 2 ^ 64 in
    ok result (
      if setflags
      then with_psr m (set_flags m.psr result (leb (2 ^ 32) result64u) result64s)
      else m)

unfoldable pub instr_sub : ℕ → ℕ → Bool → Op ℕ
instr_sub a b setflags m =
    let result = sub32 a b in
    let result64s = signed32 a -ℤ signed32 b in
    let result64u = sub64 a b in
    ok result
      (if setflags then with_psr m (set_flags m.psr result (nonneg64 result64u) result64s) else m)

unfoldable pub instr_sbc : ℕ → ℕ → Bool → Op ℕ
instr_sbc a b setflags m =
    let borrow = bit (not m.psr.c) in
    let result = sub32 (sub32 a b) borrow in
    let result64s = signed32 a -ℤ signed32 b -ℤ pos borrow in
    let result64u = sub64 (sub64 a b) borrow in
    ok result
      (if setflags then with_psr m (set_flags m.psr result (nonneg64 result64u) result64s) else m)
