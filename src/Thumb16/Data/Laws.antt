-- ===== src/Thumb16/Data/Laws.antt =====
-- The byte reversal of the 16-bit extensions.
use emculator.Prelude.{ℕ, ◌+◌, ◌*◌, ◌^◌, ◌≡◌, ◌<◌, ◌∙◌, bit_or, arith, ap}
use emculator.Word.{IsU32, field, ◌>>>◌}
use emculator.Word.Bits.{bit_or-add}
use emculator.Thumb16.Data.{reverse_bytes}

sum_of_bytes :
    (a b c d : ℕ)
    → a < 256
    → b < 256
    → c < 256
    → d < 256
    → bit_or (bit_or (bit_or (a * 2 ^ 24) (b * 2 ^ 16)) (c * 2 ^ 8)) d
      ≡ a * 2 ^ 24 + b * 2 ^ 16 + c * 2 ^ 8 + d
sum_of_bytes a b c d p q r s =
    ap (λ (t : ℕ). bit_or (bit_or t (c * 2 ^ 8)) d) (bit_or-add 24 a (b * 2 ^ 16) (omega arith))
    ∙ ap (λ (t : ℕ). bit_or (bit_or t (c * 2 ^ 8)) d) {y = (a * 256 + b) * 2 ^ 16} (omega arith)
    ∙ ap (λ (t : ℕ). bit_or t d) (bit_or-add 16 (a * 256 + b) (c * 2 ^ 8) (omega arith))
    ∙ ap (λ (t : ℕ). bit_or t d) {y = ((a * 256 + b) * 256 + c) * 2 ^ 8} (omega arith)
    ∙ bit_or-add 8 ((a * 256 + b) * 256 + c) d s
    ∙ omega arith

reverse_bytes-sum :
    (x : ℕ)
    → reverse_bytes x
      ≡ field x 0 8 * 2 ^ 24 + field x 8 8 * 2 ^ 16 + field x 16 8 * 2 ^ 8 + field x 24 8
reverse_bytes-sum x =
    sum_of_bytes (field x 0 8) (field x 8 8) (field x 16 8) (field x 24 8) (omega arith)
      (omega arith) (omega arith) (omega arith)

-- REV reverses the order of the four bytes of a word: byte `i` of the result is byte `3 - i` of the
-- operand.
pub reverse_bytes-field :
    (x : ℕ)
    → IsU32 x
    → (field (reverse_bytes x) 0 8 ≡ field x 24 8)
      × (field (reverse_bytes x) 8 8 ≡ field x 16 8)
      × (field (reverse_bytes x) 16 8 ≡ field x 8 8)
      × (reverse_bytes x >>> 24 ≡ field x 0 8)
reverse_bytes-field x h = rw reverse_bytes-sum (omega arith, omega arith, omega arith, omega arith)
