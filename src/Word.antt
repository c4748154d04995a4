-- ===== src/Word.antt =====
-- The integer types of machine.c: `uint32_t` as a native number below 2 ^ 32, its wrapping
-- operations, the shifts, the fields of an instruction, and the casts to `int32_t`.
pub mod Int
pub mod Bits
use emculator.Prelude.{ℕ, ◌+◌, ◌-◌, ◌*◌, ◌/◌, ◌%◌, ◌^◌, ◌<◌, Bool, leb, ltb, ◌==◌, if◌then◌else◌}
use Int.{ℤ, pos, negsuc}

abbrev pub IsU32 : ℕ → Type 0
IsU32 x = x < 2 ^ 32

abbrev pub u32 : ℕ → ℕ
u32 x = x % 2 ^ 32

-- a - b on uint32_t; the operands are below 2 ^ 32.
abbrev pub sub32 : ℕ → ℕ → ℕ
sub32 a b = (a + 2 ^ 32 - b) % 2 ^ 32

-- a - b on uint64_t and size_t; the operands are below 2 ^ 64.
abbrev pub sub64 : ℕ → ℕ → ℕ
sub64 a b = (a + 2 ^ 64 - b) % 2 ^ 64

-- ~x on uint32_t.
abbrev pub not32 : ℕ → ℕ
not32 x = 2 ^ 32 - 1 - x

infixl 75 ◌<<<◌ ◌>>>◌
-- x << k with no wrap, for operands whose result fits the type.
abbrev pub ◌<<<◌ : ℕ → ℕ → ℕ
x <<< k = x * 2 ^ k

-- x >> k on an unsigned type, for k below the width.
abbrev pub ◌>>>◌ : ℕ → ℕ → ℕ
x >>> k = x / 2 ^ k

-- (x >> lo) & mask, where the mask has `width` ones.
abbrev pub field : ℕ → ℕ → ℕ → ℕ
field x lo width = (x >>> lo) % 2 ^ width

-- One bit of an instruction, as a `bool`.
abbrev pub flag : ℕ → ℕ → Bool
flag x i = field x i 1 == 1

-- (int32_t)x < 0
abbrev pub is_neg : ℕ → Bool
is_neg x = leb (2 ^ 31) x

-- The number that (int32_t)x denotes.
abbrev pub signed32 : ℕ → ℤ
signed32 x = if ltb x (2 ^ 31) then pos x else negsuc (2 ^ 32 - 1 - x)

-- (int32_t)x >> k for k below 32, as a bit pattern: the shift rounds down.
abbrev pub sar : ℕ → ℕ → ℕ
sar x k = if is_neg x then not32 (not32 x >>> k) else x >>> k

-- A `width`-bit number sign-extended to 32 bits.
abbrev pub sign_extend : ℕ → ℕ → ℕ
sign_extend width x = if leb (2 ^ (width - 1)) x then x + 2 ^ 32 - 2 ^ width else x
