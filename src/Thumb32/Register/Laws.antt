-- ===== src/Thumb32/Register/Laws.antt =====
-- Counting leading zeroes.
use emculator.Prelude.{◌⊎◌, ◌==◌, if◌then◌else◌, ℕ, ◌*◌, ◌^◌, ◌≡◌, ◌<◌, ◌-◌, ◌≤◌}
use emculator.Machine.{Machine}
use emculator.Thumb32.Register.{builtin_clz}

-- What the count of leading zeroes in `n` bits is: with the count taken off, the number just fits.
abbrev pub Leading : ℕ → ℕ → ℕ → Type 0
Leading n x count = (count < n) × (x < 2 ^ (n - count)) × (2 ^ (n - count) ≤ 2 * x)

-- What the count of leading zeroes of a word is, with that of 0: the word fits the bits that are left,
-- and would not fit one bit less, unless no bit is left.
abbrev pub CountsZeroes : ℕ → ℕ → Type 0
CountsZeroes x count =
    (count ≤ 32) × (x < 2 ^ (32 - count)) × ((count ≡ 32) ⊎ (2 ^ (32 - count) ≤ 2 * x))

-- The count that CLZ computes.
abbrev clz : ℕ → ℕ
clz x = if x == 0 then 32 else builtin_clz 32 x
