-- ===== src/Thumb32/Immediate/Fields.antt =====
-- The bit fields that UBFX, SBFX and BFI read and write.
use native.Mathlib.Nat.{
  div-add-mod, mul-add-mod_self_left, mod-eq_of_lt, div-div-eq-div-mul, one-le-pow,
  mul-lt-mul_of_pos_right, mod-lt, mul-pos, mul-add-div, mul-div-mul_right, div-eq_of_lt,
}
use emculator.Prelude.{ℕ, ◌+◌, ◌-◌, ◌*◌, ◌/◌, ◌%◌, ◌^◌, ◌≡◌, ◌<◌, arith, ap, sym, ◌∙◌, lt→ltb, refl}
use emculator.Word.Bits.{pow-add}
use emculator.Word.{u32, sub32, ◌<<<◌, ◌>>>◌, field}
use emculator.Machine.{◌>>=◌, ◌>>◌, set_reg, Machine, ok, with_reg, update}
use emculator.Alu.Shift.{shl32, shr32}
use emculator.Thumb32.Immediate.{bit_field_extract}
use emculator.Thumb32.Multiple.{imm5_of}

update-update :
    {A : Type 0} (f : ℕ → A) (i : ℕ) (x y : A) → update (update f i x) i y ≡ update f i y
update-update f i x y = λ t j. once j t
  where
    once : (j : ℕ) → update (update f i x) i y j ≡ update f i y j
    once j = ground arith

mod-mul_right : (x c a : ℕ) → 0 < c → 0 < a → x * a % (c * a) ≡ x % c * a
mod-mul_right x c a p q =
    ap (λ (t : ℕ). t % (c * a)) split
    ∙ mul-add-mod_self_left (c * a) (x / c) (x % c * a)
    ∙ mod-eq_of_lt (mul-lt-mul_of_pos_right (mod-lt x p) q)
  where
    split : x * a ≡ c * a * (x / c) + x % c * a
    split = ap (λ (t : ℕ). t * a) (sym (div-add-mod x c)) ∙ omega arith

mod-div : (x l f : ℕ) → 0 < l → 0 < f → x % (l * f) / l ≡ x / l % f
mod-div x l f p q =
    ap (λ (t : ℕ). t / l) low
    ∙ mul-add-div p (x / l % f) (x % l)
    ∙ omega (arith, div-eq_of_lt (mod-lt x p))
  where
    low : x % (l * f) ≡ l * (x / l % f) + x % l
    low = omega (
      arith,
      div-add-mod x (l * f),
      div-add-mod x l,
      ap (λ (t : ℕ). l * f * t) (div-div-eq-div-mul x l f),
      ap (λ (t : ℕ). l * t) (div-add-mod (x / l) f),
    )

-- The two shifts of a field extraction cut the field out.
shifts-field :
    (x lsb n : ℕ)
    → lsb + n < 32
    → u32 (x <<< (31 - (lsb + n))) >>> (lsb + (31 - (lsb + n))) ≡ field x lsb (n + 1)
shifts-field x lsb n h =
    ap (λ (t : ℕ). x * 2 ^ up % t / 2 ^ (lsb + up)) whole
    ∙ ap (λ (t : ℕ). t / 2 ^ (lsb + up))
        (mod-mul_right x (2 ^ lsb * 2 ^ (n + 1)) (2 ^ up)
          (mul-pos (one-le-pow lsb 2 (omega arith)) (one-le-pow (n + 1) 2 (omega arith)))
          (one-le-pow up 2 (omega arith)))
    ∙ ap (λ (t : ℕ). x % (2 ^ lsb * 2 ^ (n + 1)) * 2 ^ up / t) (pow-add lsb up)
    ∙ mul-div-mul_right (x % (2 ^ lsb * 2 ^ (n + 1))) (2 ^ lsb) (one-le-pow up 2 (omega arith))
    ∙ mod-div x (2 ^ lsb) (2 ^ (n + 1)) (one-le-pow lsb 2 (omega arith))
        (one-le-pow (n + 1) 2 (omega arith))
  where
    up : ℕ
    up = 31 - (lsb + n)

    whole : 2 ^ 32 ≡ 2 ^ lsb * 2 ^ (n + 1) * 2 ^ up
    whole =
        ap (λ (t : ℕ). 2 ^ t) {x = 32} {y = lsb + (n + 1) + up} (omega arith)
        ∙ pow-add (lsb + (n + 1)) up
        ∙ ap (λ (t : ℕ). t * 2 ^ up) (pow-add lsb (n + 1))

shl32-defined : (x k : ℕ) (m : Machine) → k < 32 → shl32 x k m ≡ ok (u32 (x <<< k)) m
shl32-defined x k m h = rw (lt→ltb k 32 h) refl

shr32-defined : (x k : ℕ) (m : Machine) → k < 32 → shr32 x k m ≡ ok (x >>> k) m
shr32-defined x k m h = rw (lt→ltb k 32 h) refl

-- The body of UBFX, with its fields as numbers.
extract :
    (dst lsb n x : ℕ) (m : Machine)
    → lsb + n < 32
    → (do
      y ← shl32 x (sub32 31 (lsb + n))
      set_reg dst y
      z ← shr32 y (u32 (lsb + sub32 31 (lsb + n)))
      set_reg dst z)
        m
      ≡ ok tt (with_reg m dst (field x lsb (n + 1)))
extract dst lsb n x m h =
    rw (up, shl32-defined x (31 - (lsb + n)) m (omega arith), back)
      (rw
        (shr32-defined (u32 (x <<< (31 - (lsb + n)))) (lsb + (31 - (lsb + n)))
          (with_reg m dst (u32 (x <<< (31 - (lsb + n))))) (omega arith))
        (λ i. ok tt (record m { regs = written i })))
  where
    up : sub32 31 (lsb + n) ≡ 31 - (lsb + n)
    up = omega arith

    back : u32 (lsb + (31 - (lsb + n))) ≡ lsb + (31 - (lsb + n))
    back = omega arith

    written :
        update
          (update m.regs dst (u32 (x <<< (31 - (lsb + n)))))
          dst
          (u32 (x <<< (31 - (lsb + n))) >>> (lsb + (31 - (lsb + n))))
        ≡ update m.regs dst (field x lsb (n + 1))
    written =
        update-update m.regs dst _ _ ∙ ap (λ (t : ℕ). update m.regs dst t) (shifts-field x lsb n h)

-- UBFX with a field inside the word puts the field into the destination, and changes nothing else.
pub bit_field_extract-field :
    (hw1 hw2 : ℕ) (m : Machine)
    → imm5_of hw2 + field hw2 0 5 < 32
    → bit_field_extract shr32 hw1 hw2 m
      ≡ ok tt (
          with_reg m
            (field hw2 8 4)
            (field (m.regs (field hw1 0 4)) (imm5_of hw2) (field hw2 0 5 + 1)))
unfolding bit_field_extract
bit_field_extract-field hw1 hw2 m h =
    extract (field hw2 8 4) (imm5_of hw2) (field hw2 0 5) (m.regs (field hw1 0 4)) m h
