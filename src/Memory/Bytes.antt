-- ===== src/Memory/Bytes.antt =====
-- Little-endian access to an array of bytes, as through a cast pointer in `machine_transfer`.
pub mod Laws
use emculator.Prelude.{ℕ, zero, suc, ◌+◌, ◌*◌, ◌/◌, ◌%◌}
use emculator.Machine.{update}

-- The `n` bytes from offset `o` as one number.
unfoldable pub read_le : (ℕ → ℕ) → ℕ → ℕ → ℕ
read_le f o zero = 0
read_le f o (suc n) = f o + 256 * read_le f (o + 1) n

-- The low `n` bytes of `x`, written from offset `o`.
unfoldable pub write_le : (ℕ → ℕ) → ℕ → ℕ → ℕ → (ℕ → ℕ)
write_le f o zero x = f
write_le f o (suc n) x = update (write_le f (o + 1) n (x / 256)) o (x % 256)

-- `memset(f + o, x, n)`.
unfoldable pub fill : (ℕ → ℕ) → ℕ → ℕ → ℕ → (ℕ → ℕ)
fill f o x zero = f
fill f o x (suc n) = update (fill f (o + 1) x n) o x
