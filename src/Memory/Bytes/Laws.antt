-- ===== src/Memory/Bytes/Laws.antt =====
-- Reading back what was written, byte by byte.
use native.Mathlib.Nat.{pow-succ', div-add-mod, div-div-eq-div-mul}
use emculator.Prelude.{ℕ, zero, suc, ◌+◌, ◌*◌, ◌^◌, ◌≡◌, ◌<◌, ◌%◌, ◌⊎◌, arith, ◌/◌, ◌≤◌, refl, ap}
use emculator.Machine.{update}
use emculator.Memory.Bytes.{read_le, write_le}

pub read_le-update_below :
    (f : ℕ → ℕ) (p v o n : ℕ) → p < o → read_le (update f p v) o n ≡ read_le f o n
unfolding read_le
read_le-update_below f p v o zero h = refl
read_le-update_below f p v o (suc n) h =
    ground (arith, read_le-update_below f p v (o + 1) n (omega arith))

mod-split : (x k : ℕ) → x % (256 * k) ≡ x % 256 + 256 * (x / 256 % k)
mod-split x k = omega (
  arith,
  div-add-mod x (256 * k),
  div-add-mod (x / 256) k,
  ap (λ (t : ℕ). k * t) (div-div-eq-div-mul x 256 k),
)

pub read_le-write_le : (f : ℕ → ℕ) (o n x : ℕ) → read_le (write_le f o n x) o n ≡ x % 256 ^ n
unfolding read_le write_le
read_le-write_le f o zero x = omega arith
read_le-write_le f o (suc n) x = ground (
  arith,
  read_le-update_below (write_le f (o + 1) n (x / 256)) o (x % 256) (o + 1) n,
  read_le-write_le f (o + 1) n (x / 256),
  mod-split x (256 ^ n),
  pow-succ' 256 n,
)

pub write_le-outside : (f : ℕ → ℕ) (o n x j : ℕ) → (j < o) ⊎ (o + n ≤ j) → write_le f o n x j ≡ f j
unfolding write_le
write_le-outside f o zero x j h = refl
write_le-outside f o (suc n) x j h =
    ground (arith, write_le-outside f (o + 1) n (x / 256) j (omega arith))

pub read_le-lt : (f : ℕ → ℕ) (o n : ℕ) → ((j : ℕ) → f j < 256) → read_le f o n < 256 ^ n
unfolding read_le
read_le-lt f o zero h = omega arith
read_le-lt f o (suc n) h = omega (arith, h o, read_le-lt f (o + 1) n h, pow-succ' 256 n)
