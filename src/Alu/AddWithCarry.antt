-- ===== src/Alu/AddWithCarry.antt =====
-- The architecture's `AddWithCarry`, and the sums and differences of machine.c against it.
use emculator.Prelude.{
  ℕ, ◌+◌, ◌%◌, ◌^◌, ◌<◌, ◌≡◌, ◌∙◌, Bool, true, false, not, ◌&&◌, ◌==◌, bit, ◌⊎◌, inl, inr, lt_or_ge,
  ◌≤◌, bool_ne, arith,
}
use emculator.Word.{IsU32, sub32, sub64, not32, is_neg, signed32}
use emculator.Word.Int.{ℤ, pos, pos_part, neg_part, ◌+ℤ◌, ◌-ℤ◌, is_neg_ℤ}
use emculator.Machine.{Machine, Flags, Run, Op, ok, with_psr}
use emculator.Alu.Arith.{nonneg64, instr_add, instr_adc, instr_sub, instr_sbc}

abbrev pub eq_ℤ : ℤ → ℤ → Bool
eq_ℤ a b = (pos_part a == pos_part b) && (neg_part a == neg_part b)

-- The result and the flags that the architecture manual defines for `x + y + carry_in`.
pub record Sum : Type 0 where
  pub result : ℕ
  pub carry_out : Bool
  pub overflow : Bool

abbrev pub add_with_carry : ℕ → ℕ → ℕ → Sum
unfolding ◌+ℤ◌
add_with_carry x y carry_in =
    let unsigned_sum = x + y + carry_in in
    let signed_sum = signed32 x +ℤ signed32 y +ℤ pos carry_in in
    let result = unsigned_sum % 2 ^ 32 in
    record {
      result = result;
      carry_out = not (result == unsigned_sum);
      overflow = not (eq_ℤ (signed32 result) signed_sum);
    }

-- The flags of an instruction that sets all four from such a sum.
abbrev pub nzcv : Flags → Sum → Flags
nzcv f s = record f { n = is_neg s.result; z = s.result == 0; c = s.carry_out; v = s.overflow }

-- An instruction that sets the flags gives the sum's result and flags.
abbrev pub Gives : Op ℕ → Machine → Sum → Type 0
Gives op m s = op m ≡ ok s.result (with_psr m (nzcv m.psr s))

sub_zero_ℤ : (x : ℤ) → x -ℤ pos 0 ≡ x
unfolding ◌-ℤ◌
sub_zero_ℤ x = ground arith

-- Both sides of `Gives` are of this form.
abbrev outcome : Machine → ℕ → Bool → Bool → Run ℕ
outcome m result carry overflow =
    ok result
      (with_psr m (record m.psr { n = is_neg result; z = result == 0; c = carry; v = overflow }))

module _ (a b : ℕ) (ha : IsU32 a) (hb : IsU32 b) where
  sub32-result : sub32 a b ≡ (add_with_carry a (not32 b) 1).result
  unfolding ◌+ℤ◌
  sub32-result = omega arith

  sub64-carry : nonneg64 (sub64 a b) ≡ (add_with_carry a (not32 b) 1).carry_out
  unfolding ◌+ℤ◌
  sub64-carry = ground arith

  sub-overflow :
      bool_ne (is_neg (sub32 a b)) (is_neg_ℤ (signed32 a -ℤ signed32 b))
      ≡ (add_with_carry a (not32 b) 1).overflow
  unfolding ◌+ℤ◌ ◌-ℤ◌
  sub-overflow = ground arith

  module _ (borrow : Bool) where
    sbc32-result :
        sub32 (sub32 a b) (bit (not borrow)) ≡ (add_with_carry a (not32 b) (bit borrow)).result
    unfolding ◌+ℤ◌
    sbc32-result = ground arith

    sbc64-carry :
        nonneg64 (sub64 (sub64 a b) (bit (not borrow)))
        ≡ (add_with_carry a (not32 b) (bit borrow)).carry_out
    unfolding ◌+ℤ◌
    sbc64-carry = ground arith

  sub32-zero : sub32 (sub32 a b) 0 ≡ sub32 a b
  sub32-zero = omega arith

  -- The case of a borrow, one lemma for each pair of signs.
  abbrev BorrowOverflow : Type 0
  unfolding ◌+ℤ◌ ◌-ℤ◌
  BorrowOverflow =
      bool_ne (is_neg (sub32 (sub32 a b) 1)) (is_neg_ℤ (signed32 a -ℤ signed32 b -ℤ pos 1))
      ≡ (add_with_carry a (not32 b) 0).overflow

  borrow-overflow_pos_pos : a < 2 ^ 31 → b < 2 ^ 31 → BorrowOverflow
  unfolding ◌+ℤ◌ ◌-ℤ◌
  borrow-overflow_pos_pos p q = ground arith

  borrow-overflow_pos_neg : a < 2 ^ 31 → 2 ^ 31 ≤ b → BorrowOverflow
  unfolding ◌+ℤ◌ ◌-ℤ◌
  borrow-overflow_pos_neg p q = ground arith

  borrow-overflow_neg_pos : 2 ^ 31 ≤ a → b < 2 ^ 31 → BorrowOverflow
  unfolding ◌+ℤ◌ ◌-ℤ◌
  borrow-overflow_neg_pos p q = ground arith

  borrow-overflow_neg_neg : 2 ^ 31 ≤ a → 2 ^ 31 ≤ b → BorrowOverflow
  unfolding ◌+ℤ◌ ◌-ℤ◌
  borrow-overflow_neg_neg p q = ground arith

  borrow-overflow : (a < 2 ^ 31) ⊎ (2 ^ 31 ≤ a) → (b < 2 ^ 31) ⊎ (2 ^ 31 ≤ b) → BorrowOverflow
  borrow-overflow (inl p) (inl q) = borrow-overflow_pos_pos p q
  borrow-overflow (inl p) (inr q) = borrow-overflow_pos_neg p q
  borrow-overflow (inr p) (inl q) = borrow-overflow_neg_pos p q
  borrow-overflow (inr p) (inr q) = borrow-overflow_neg_neg p q

  sbc-overflow :
      (borrow : Bool)
      → bool_ne
          (is_neg (sub32 (sub32 a b) (bit (not borrow))))
          (is_neg_ℤ (signed32 a -ℤ signed32 b -ℤ pos (bit (not borrow))))
        ≡ (add_with_carry a (not32 b) (bit borrow)).overflow
  unfolding ◌+ℤ◌ ◌-ℤ◌
  sbc-overflow true =
      (λ i. bool_ne (is_neg (sub32-zero i)) (is_neg_ℤ (sub_zero_ℤ (signed32 a -ℤ signed32 b) i)))
      ∙ sub-overflow
  sbc-overflow false = borrow-overflow (lt_or_ge a (2 ^ 31)) (lt_or_ge b (2 ^ 31))

module _ (a b : ℕ) (m : Machine) (ha : IsU32 a) (hb : IsU32 b) where
  -- The sum of 32-bit words that sets the flags gives the result and the flags of AddWithCarry without a
  -- carry, and changes nothing else.
  pub instr_add-Sum : Gives (instr_add a b true) m (add_with_carry a b 0)
  unfolding instr_add ◌+ℤ◌
  instr_add-Sum = ground arith

  -- The sum with the carry gives the result and the flags of AddWithCarry with the carry flag.
  pub instr_adc-Sum : Gives (instr_adc a b true) m (add_with_carry a b (bit m.psr.c))
  unfolding instr_adc ◌+ℤ◌
  instr_adc-Sum = ground arith

  -- The difference gives the result and the flags of AddWithCarry on the inverted second operand, with a
  -- carry of one.
  pub instr_sub-Sum : Gives (instr_sub a b true) m (add_with_carry a (not32 b) 1)
  unfolding instr_sub ◌+ℤ◌
  instr_sub-Sum =
      λ i. outcome m (sub32-result a b ha hb i) (sub64-carry a b ha hb i) (sub-overflow a b ha hb i)

  -- The difference with a borrow gives those of AddWithCarry on the inverted second operand, with the
  -- carry flag.
  pub instr_sbc-Sum : Gives (instr_sbc a b true) m (add_with_carry a (not32 b) (bit m.psr.c))
  unfolding instr_sbc ◌+ℤ◌
  instr_sbc-Sum = λ i.
      outcome m (sbc32-result a b ha hb m.psr.c i) (sbc64-carry a b ha hb m.psr.c i)
        (sbc-overflow a b ha hb m.psr.c i)
