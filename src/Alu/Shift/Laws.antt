-- ===== src/Alu/Shift/Laws.antt =====
-- The shifts of machine.c against the architecture's LSL_C and LSR_C.
use native.Mathlib.Nat.{mul-div-mul_right, one-le-pow}
use emculator.Prelude.{
  ℕ, ◌*◌, ◌^◌, ◌≡◌, ◌-◌, ◌≤◌, arith, ◌<◌, Bool, true, ◌/◌, sym, ◌∙◌, ap, false, lt_or_ge, inl,
  if◌then◌else◌, inr, ltb,
}
use emculator.Word.Bits.{pow-add}
use emculator.Word.{IsU32, u32, sub32, ◌<<<◌, ◌>>>◌, flag, is_neg, sar}
use emculator.Machine.{Machine, ok, ub, with_psr}
use emculator.Alu.Shift.{instr_lsl, instr_lsr, instr_asr, Bool, ltb}

div-pow : (x n : ℕ) → n ≤ 32 → x / 2 ^ (32 - n) ≡ x * 2 ^ n / 2 ^ 32
div-pow x n h =
    let whole : 2 ^ (32 - n) * 2 ^ n ≡ 2 ^ 32 =
      sym (pow-add (32 - n) n) ∙ ap (λ (k : ℕ). 2 ^ k) {y = 32} (omega arith) in
    sym (mul-div-mul_right x (2 ^ (32 - n)) (one-le-pow n 2 (omega arith)))
    ∙ ap (λ (k : ℕ). x * 2 ^ n / k) whole

sub32-le : (a b : ℕ) → b ≤ a → IsU32 a → sub32 a b ≡ a - b
sub32-le a b h k = omega arith

abbrev pub with_carry : Machine → Bool → Machine
with_carry m b = with_psr m (record m.psr { c = b })

-- LSL_C: the operand extended by `n` zeroes to the right; the carry is the bit behind the 32.
abbrev pub lsl_c : ℕ → ℕ → ℕ × Bool
lsl_c x n = (u32 (x <<< n), flag (x <<< n) 32)

-- A shift to the left by 1 to 32 that sets the flags gives the architecture's result and carry, and
-- changes nothing else.
pub instr_lsl-lsl_c :
    (x n : ℕ) (m : Machine)
    → 0 < n
    → n ≤ 32
    → instr_lsl x n true m ≡ ok (lsl_c x n).0 (with_carry m (lsl_c x n).1)
unfolding instr_lsl
instr_lsl-lsl_c x n m p q = ground (arith, div-pow x n, sub32-le 32 n)

-- LSR_C: the carry is the last bit shifted out.
abbrev pub lsr_c : ℕ → ℕ → ℕ × Bool
lsr_c x n = (x >>> n, flag x (n - 1))

div_32 : (x : ℕ) → IsU32 x → x / 2 ^ 32 ≡ 0
div_32 x h = omega arith

-- A shift to the right by 1 to 32 that sets the flags gives the architecture's result and carry,
-- and changes nothing else.
pub instr_lsr-lsr_c :
    (x n : ℕ) (m : Machine)
    → IsU32 x
    → 0 < n
    → n ≤ 32
    → instr_lsr x n true m ≡ ok (lsr_c x n).0 (with_carry m (lsr_c x n).1)
unfolding instr_lsr
instr_lsr-lsr_c x n m h p q = elim (lt_or_ge n 32) [
  | inl below ↦ ground (arith, sub32-le n 1)
  | inr at ↦ let e : n ≡ 32 = omega arith in rw e (ground (arith, div_32 x h))
]

-- A shift by a register amount that C does not define: one to the left by more than 32, or an
-- arithmetic one to the right by 0, that sets the flags.
pub shift_undefined :
    (x n : ℕ) (m : Machine)
    → 32 < n
    → n < 256
    → (instr_lsl x n true m ≡ ub) × (instr_asr x 0 true m ≡ ub)
unfolding instr_lsl instr_asr
shift_undefined x n m p q = (ground arith, ground arith)

-- Without the flags every shift is defined and leaves the machine as it is: the result is zero from
-- 32 on, but for the arithmetic one, which fills with the sign.
pub shift_plain :
    (x n : ℕ) (m : Machine)
    → IsU32 x
    → (instr_lsl x n false m ≡ ok (if ltb n 32 then u32 (x <<< n) else 0) m)
      × (instr_lsr x n false m ≡ ok (if ltb n 32 then x >>> n else 0) m)
      × (instr_asr x n false m
          ≡ ok (if ltb n 32 then sar x n else if is_neg x then 2 ^ 32 - 1 else 0) m)
unfolding instr_lsl instr_lsr instr_asr
shift_plain x n m h = (ground arith, ground arith, ground arith)
