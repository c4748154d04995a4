-- ===== src/Memory/Flash.antt =====
-- Stores in the code region: flash as NOR memory.
use emculator.Prelude.{
  ℕ, ◌+◌, ◌^◌, ◌≡◌, Bool, ◌<◌, true, false, ◌⊎◌, ◌%◌, ◌≤◌, ◌≢◌, arith, bit_and, ◌∙◌, ap,
}
use emculator.Word.{◌>>>◌}
use emculator.Machine.{Machine, Width, width_8, width_32, load, store, ok, err, err_mem}
use emculator.Memory.Pointer.{read_ptr, write_ptr}
use emculator.Memory.Bytes.{read_le, write_le}
use emculator.Word.Bits.{bit_and-le, bit_and-lt}
use emculator.Memory.Bytes.Laws.{read_le-lt, read_le-write_le, write_le-outside}
use emculator.Memory.{
  machine_transfer, transfer_code, access_code, store_flash, access, Bool, false, true, bit_and,
}

abbrev written : Machine → ℕ → ℕ → Machine
written m address x = record m {
  image = write_le m.image address 4 (bit_and (read_le m.image address 4) x);
}

module _ (address x : ℕ) (sx : Bool) (m : Machine) (region : address >>> 29 ≡ 0)
    (inside : address < m.image_size) where
  -- A store to the flash that is not an aligned word, or that comes while writing is not enabled, is
  -- a memory error and changes nothing.
  pub store-flash_refused :
      (width : Width)
      → (m.image_writable ≡ false) ⊎ (address % 4 ≢ 0) ⊎ (width ≢ width_32)
      → machine_transfer address store x width sx m ≡ err err_mem m
  unfolding machine_transfer transfer_code access_code store_flash
  store-flash_refused width_8 h = ground arith
  store-flash_refused _ h = ground arith

  store-flash_word :
      m.image_writable ≡ true
      → address % 4 ≡ 0
      → address + 4 ≤ m.image_size
      → machine_transfer address store x width_32 sx m ≡ ok x (written m address x)
  unfolding machine_transfer transfer_code access_code store_flash read_ptr write_ptr
  store-flash_word w a f = ground arith

  load-flash_word :
      address + 4 ≤ m.image_size
      → machine_transfer address load x width_32 sx m ≡ ok (read_le m.image address 4) m
  unfolding machine_transfer transfer_code access_code access read_ptr
  load-flash_word f = ground arith

-- A store of a word to flash whose writing is enabled clears bits and sets none: the word read back is
-- the conjunction of the old word and the stored one, which is at most the old word. A byte
-- of the flash outside that word is as before.
pub flash_clears :
    (address x y : ℕ) (sx : Bool) (m : Machine) (j : ℕ)
    → address >>> 29 ≡ 0
    → address + 4 ≤ m.image_size
    → address % 4 ≡ 0
    → m.image_writable ≡ true
    → ((i : ℕ) → m.image i < 256)
    → (j < address) ⊎ (address + 4 ≤ j)
    → (old : ℕ) × (m' : Machine) × (machine_transfer address load y width_32 sx m ≡ ok old m)
      × (machine_transfer address store x width_32 sx m ≡ ok x m')
      × (machine_transfer address load y width_32 sx m' ≡ ok (bit_and old x) m')
      × (bit_and old x ≤ old)
      × (m'.image j ≡ m.image j)
flash_clears address x y sx m j region fits aligned writable is_bytes outside =
    let inside : address < m.image_size = omega arith in
    let old = read_le m.image address 4 in
    let fits_word : old < 2 ^ 32 = read_le-lt m.image address 4 is_bytes in
    (
      old,
      written m address x,
      load-flash_word address y sx m region inside fits,
      store-flash_word address x sx m region inside writable aligned fits,
      load-flash_word address y sx (written m address x) region inside fits
          ∙ ap (λ v. ok v (written m address x))
              (read_le-write_le m.image address 4 (bit_and old x)
                ∙ omega (arith, bit_and-lt 32 old x fits_word)),
      bit_and-le old x,
      write_le-outside m.image address 4 (bit_and old x) j outside,
    )
