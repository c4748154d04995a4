-- ===== src/Alu/Compare.antt =====
-- What the condition codes say behind a comparison: `machine_instr_sub` sets the flags, and
-- `machine_condition` reads them.
use emculator.Prelude.{
  ℕ, ◌≡◌, Bool, not, ◌&&◌, ◌||◌, ◌==◌, leb, ltb, bool_ne, Option, none, some, if◌then◌else◌, arith,
  refl, ◌∙◌, true,
}
use emculator.Word.{IsU32, sub32, sub64, is_neg, signed32}
use emculator.Word.Int.{◌-ℤ◌, is_neg_ℤ, leb_ℤ}
use emculator.Machine.{Flags, with_psr, Machine, ok}
use emculator.Alu.Condition.{condition}
use emculator.Alu.Arith.{set_flags, nonneg64, instr_sub}

-- The flags that a comparison of `a` with `b` leaves.
abbrev pub compare_flags : Flags → ℕ → ℕ → Flags
unfolding ◌-ℤ◌
compare_flags f a b = set_flags f (sub32 a b) (nonneg64 (sub64 a b)) (signed32 a -ℤ signed32 b)

-- What each condition asks of the operands: equality, the unsigned order, the sign of the
-- difference, the signed order.
abbrev pub compares : ℕ → ℕ → ℕ → Option Bool
compares a b cond =
    if cond == 0b0000
    then some (a == b)
    else if cond == 0b0001
    then some (not (a == b))
    else if cond == 0b0010
    then some (leb b a)
    else if cond == 0b0011
    then some (ltb a b)
    else if cond == 0b0100
    then some (is_neg (sub32 a b))
    else if cond == 0b0101
    then some (not (is_neg (sub32 a b)))
    else if cond == 0b1000
    then some (ltb b a)
    else if cond == 0b1001
    then some (leb a b)
    else if cond == 0b1010
    then some (leb_ℤ (signed32 b) (signed32 a))
    else if cond == 0b1011
    then some (not (leb_ℤ (signed32 b) (signed32 a)))
    else if cond == 0b1100
    then some (not (leb_ℤ (signed32 a) (signed32 b)))
    else if cond == 0b1101
    then some (leb_ℤ (signed32 a) (signed32 b))
    else none

-- `machine_condition` on the flags that it combines; `d` is N != V.
abbrev condition_of : Bool → Bool → Bool → Bool → ℕ → Option Bool
condition_of z c n d cond =
    if cond == 0b0000
    then some z
    else if cond == 0b0001
    then some (not z)
    else if cond == 0b0010
    then some c
    else if cond == 0b0011
    then some (not c)
    else if cond == 0b0100
    then some n
    else if cond == 0b0101
    then some (not n)
    else if cond == 0b1000
    then some (c && not z)
    else if cond == 0b1001
    then some (not c || z)
    else if cond == 0b1010
    then some (not d)
    else if cond == 0b1011
    then some d
    else if cond == 0b1100
    then some (not z && not d)
    else if cond == 0b1101
    then some (z || d)
    else none

condition_of_lem :
    (f : Flags) (cond : ℕ) → condition f cond ≡ condition_of f.z f.c f.n (bool_ne f.n f.v) cond
unfolding condition
condition_of_lem f cond = refl

module _ (a b : ℕ) (ha : IsU32 a) (hb : IsU32 b) where
  zero-eq : (sub32 a b == 0) ≡ (a == b)
  zero-eq = ground arith

  carry-le : nonneg64 (sub64 a b) ≡ leb b a
  carry-le = ground arith

  sign-lt :
      bool_ne
        (is_neg (sub32 a b))
        (bool_ne (is_neg (sub32 a b)) (is_neg_ℤ (signed32 a -ℤ signed32 b)))
      ≡ not (leb_ℤ (signed32 b) (signed32 a))
  unfolding ◌-ℤ◌
  sign-lt = ground arith

  hi-lt : (leb b a && not (a == b)) ≡ ltb b a
  hi-lt = ground arith

  ls-le : (not (leb b a) || (a == b)) ≡ leb a b
  ls-le = ground arith

  abbrev not_ge : Bool
  not_ge = not (leb_ℤ (signed32 b) (signed32 a))

  gt-lt : (not (a == b) && not not_ge) ≡ not (leb_ℤ (signed32 a) (signed32 b))
  gt-lt = ground arith

  le-le : ((a == b) || not_ge) ≡ leb_ℤ (signed32 a) (signed32 b)
  le-le = ground arith

  cc-lt : not (leb b a) ≡ ltb a b
  cc-lt = ground arith

  ge-le : not not_ge ≡ leb_ℤ (signed32 b) (signed32 a)
  ge-le = ground arith

  condition_of-compares :
      (cond : ℕ)
      → condition_of (a == b) (leb b a) (is_neg (sub32 a b)) not_ge cond ≡ compares a b cond
  condition_of-compares cond = λ i.
      if cond == 0b0000
      then some (a == b)
      else if cond == 0b0001
      then some (not (a == b))
      else if cond == 0b0010
      then some (leb b a)
      else if cond == 0b0011
      then some (cc-lt i)
      else if cond == 0b0100
      then some (is_neg (sub32 a b))
      else if cond == 0b0101
      then some (not (is_neg (sub32 a b)))
      else if cond == 0b1000
      then some (hi-lt i)
      else if cond == 0b1001
      then some (ls-le i)
      else if cond == 0b1010
      then some (ge-le i)
      else if cond == 0b1011
      then some not_ge
      else if cond == 0b1100
      then some (gt-lt i)
      else if cond == 0b1101
      then some (le-le i)
      else none

  -- Behind a comparison of `a` with `b` each condition code means its relation between the
  -- operands, for every code at once: EQ and NE equality, CS, CC, HI and LS the unsigned order, MI
  -- and PL the sign of the difference, GE, LT, GT and LE the signed order, and no other code is
  -- accepted. The registers and the memories are as before.
  pub condition-compares :
      (m : Machine) (cond : ℕ)
      → (m' : Machine) × (instr_sub a b true m ≡ ok (sub32 a b) m')
        × (m' ≡ with_psr m m'.psr)
        × (condition m'.psr cond ≡ compares a b cond)
  unfolding instr_sub ◌-ℤ◌
  condition-compares m cond = (
    with_psr m (compare_flags m.psr a b),
    refl,
    refl,
    condition_of_lem (compare_flags m.psr a b) cond
        ∙ (λ i. condition_of (zero-eq i) (carry-le i) (is_neg (sub32 a b)) (sign-lt i) cond)
        ∙ condition_of-compares cond,
  )
