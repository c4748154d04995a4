-- ===== src/Word/Bits.antt =====
-- The bit operations of C on machine words: the equation for the lowest bit, and the bounds that
-- follow from it. The native operations are defined by a recursion on digits with fuel.
use Prim.Native.Nat.{min, max, digits, bitwise, bit_and-bitwise, bit_or-bitwise, bit_and, bit_or}
use native.Mathlib.Nat.{pow-suc, add-zero, add-suc}
use emculator.Prelude.{
  ℕ, zero, suc, ◌+◌, ◌*◌, ◌^◌, ◌≡◌, bit_and, bit_or, ◌≤◌, ◌<◌, ◌/◌, arith, ◌%◌, refl, ◌∙◌, sym, ap,
}

module _ (rest : ℕ → ℕ) (g : ℕ → ℕ → ℕ) where
  digits-zero : (n y : ℕ) → digits rest g n 0 y ≡ rest y
  digits-zero zero y = refl
  digits-zero (suc n) y = refl

  -- How much fuel there is does not matter, if it is enough.
  digits_agree : (x y : ℕ) {n m : ℕ} → x ≤ n → x ≤ m → digits rest g m x y ≡ digits rest g n x y
  digits_agree zero y {n} {m} p q = digits-zero m y ∙ sym (digits-zero n y)
  digits_agree (suc x) y {n = zero} p q = absurd (omega arith)
  digits_agree (suc x) y {m = zero} p q = absurd (omega arith)
  digits_agree (suc x) y {n = suc n} {m = suc m} p q =
      let half = digits_agree (suc x / 2) (y / 2) {n = n} {m = m} (omega arith) (omega arith) in
      ap (λ (k : ℕ). k * 2 + g (suc x % 2) (y % 2)) half

  bitwise-positive :
      (x y : ℕ)
      → bitwise rest g (suc x) y ≡ bitwise rest g (suc x / 2) (y / 2) * 2 + g (suc x % 2) (y % 2)
  bitwise-positive x y =
      let fuel =
        digits_agree (suc x / 2) (y / 2) {n = suc x / 2} {m = x} (omega arith) (omega arith) in
      ap (λ (k : ℕ). k * 2 + g (suc x % 2) (y % 2)) fuel

-- `&` and `|` on the lowest bits, and on the others.
pub bit_and_lowest : (x y : ℕ) → bit_and x y ≡ bit_and (x / 2) (y / 2) * 2 + min (x % 2) (y % 2)
bit_and_lowest zero y = omega (arith, bit_and-bitwise 0 y, bit_and-bitwise 0 (y / 2))
bit_and_lowest (suc x) y = rw bit_and-bitwise (rw bit_and-bitwise (bitwise-positive _ min x y))

pub bit_or_lowest : (x y : ℕ) → bit_or x y ≡ bit_or (x / 2) (y / 2) * 2 + max (x % 2) (y % 2)
bit_or_lowest zero y = omega (arith, bit_or-bitwise 0 y, bit_or-bitwise 0 (y / 2))
bit_or_lowest (suc x) y = rw bit_or-bitwise (rw bit_or-bitwise (bitwise-positive _ max x y))

-- A word of `k` bits stays one.
pub bit_and-lt : (k a b : ℕ) → a < 2 ^ k → bit_and a b < 2 ^ k
bit_and-lt zero a b h = let e : a ≡ 0 = omega arith in rw e (omega (arith, bit_and-bitwise 0 b))
bit_and-lt (suc k) a b h = omega (
  arith,
  bit_and_lowest a b,
  pow-suc 2 k,
  bit_and-lt k (a / 2) (b / 2) (omega (arith, pow-suc 2 k)),
)

pub bit_or-lt : (k a b : ℕ) → a < 2 ^ k → b < 2 ^ k → bit_or a b < 2 ^ k
bit_or-lt zero a b h g = let e : a ≡ 0 = omega arith in rw e (omega (arith, bit_or-bitwise 0 b))
bit_or-lt (suc k) a b h g = omega (
  arith,
  bit_or_lowest a b,
  pow-suc 2 k,
  bit_or-lt k (a / 2) (b / 2) (omega (arith, pow-suc 2 k)) (omega (arith, pow-suc 2 k)),
)

-- Bits can only be cleared by an `&`.
bit_and-le_fuel : (n a b : ℕ) → a ≤ n → bit_and a b ≤ a
bit_and-le_fuel n zero b h = omega (arith, bit_and-bitwise 0 b)
bit_and-le_fuel zero (suc a) b h = elim h [ ]
bit_and-le_fuel (suc n) (suc a) b h =
    omega (arith, bit_and_lowest (suc a) b, bit_and-le_fuel n (suc a / 2) (b / 2) (omega arith))

pub bit_and-le : (a b : ℕ) → bit_and a b ≤ a
bit_and-le a b = bit_and-le_fuel a a b (omega arith)

bit_or-zero_fuel : (n x : ℕ) → x ≤ n → bit_or x 0 ≡ x
bit_or-zero_fuel n zero h = bit_or-bitwise 0 0
bit_or-zero_fuel zero (suc x) h = elim h [ ]
bit_or-zero_fuel (suc n) (suc x) h =
    omega (arith, bit_or_lowest (suc x) 0, bit_or-zero_fuel n (suc x / 2) (omega arith))

bit_or-zero : (x : ℕ) → bit_or x 0 ≡ x
bit_or-zero x = bit_or-zero_fuel x x (omega arith)

-- `|` of fields that do not overlap is their sum.
pub bit_or-add : (k high low : ℕ) → low < 2 ^ k → bit_or (high * 2 ^ k) low ≡ high * 2 ^ k + low
bit_or-add zero high low h =
    let none : low ≡ 0 = omega arith in rw none (bit_or-zero (high * 2 ^ 0) ∙ omega arith)
bit_or-add (suc k) high low h = omega (
  arith,
  bit_or_lowest (high * 2 ^ suc k) low,
  ap (λ (t : ℕ). high * t) (pow-suc 2 k),
  bit_or-add k high (low / 2) (omega (arith, pow-suc 2 k)),
  ap (λ (t : ℕ). bit_or t (low / 2)) halves,
)
  where
    halves : high * 2 ^ suc k / 2 ≡ high * 2 ^ k
    halves = omega (arith, ap (λ (t : ℕ). high * t) (pow-suc 2 k))

pub pow-add : (a b : ℕ) → 2 ^ (a + b) ≡ 2 ^ a * 2 ^ b
pow-add a zero = rw add-zero (omega arith)
pow-add a (suc b) =
    rw (add-suc, pow-suc) (omega (arith, pow-add a b, ap (λ (t : ℕ). 2 ^ a * t) (pow-suc 2 b)))
