-- ===== src/Memory/Ram.antt =====
-- Loads and stores in the SRAM region.
use emculator.Prelude.{ℕ, ◌+◌, ◌^◌, ◌≡◌, Bool, ◌%◌, arith, ◌≤◌, ◌<◌, ◌⊎◌, ◌∙◌, ap}
use emculator.Word.{◌>>>◌}
use emculator.Machine.{Machine, Width, width_8, load, store, ok}
use emculator.Memory.Pointer.{bytes, read_ptr, write_ptr}
use emculator.Memory.Bytes.{read_le, write_le}
use emculator.Memory.Bytes.Laws.{read_le-write_le, write_le-outside}
use emculator.Memory.{machine_transfer, transfer_sram, access, extend, Bool}

-- The whole access lies in the SRAM region and in the memory that is there.
abbrev pub InRam : Machine → ℕ → Width → Type 0
InRam m address width = (address >>> 29 ≡ 1) × (address % 2 ^ 29 + bytes width ≤ m.mem_size)

-- The machine with the low bytes of `x` written at an address of the SRAM.
abbrev pub stored : Machine → ℕ → Width → ℕ → Machine
stored m address width x = record m { mem = write_le m.mem (address % 2 ^ 29) (bytes width) x }

module _ (address x : ℕ) (sx : Bool) (m : Machine) where
  pub store-ram :
      (width : Width)
      → InRam m address width
      → machine_transfer address store x width sx m ≡ ok x (stored m address width x)
  unfolding machine_transfer transfer_sram access write_ptr
  store-ram width_8 h = ground arith
  store-ram _ h = ground arith

  pub load-ram :
      (width : Width)
      → InRam m address width
      → machine_transfer address load x width sx m
        ≡ ok (extend width sx (read_le m.mem (address % 2 ^ 29) (bytes width))) m
  unfolding machine_transfer transfer_sram access read_ptr
  load-ram width_8 h = ground arith
  load-ram _ h = ground arith

-- A store to the SRAM succeeds and leaves `*reg` as it is; a load of that width from there then gives
-- back the low bytes that were stored, extended as asked; and a byte outside the written ones is as
-- before.
pub load-store :
    (address x y : ℕ) (width : Width) (sx : Bool) (m : Machine) (j : ℕ)
    → InRam m address width
    → (j < address % 2 ^ 29) ⊎ (address % 2 ^ 29 + bytes width ≤ j)
    → (m' : Machine) × (machine_transfer address store x width sx m ≡ ok x m')
      × (machine_transfer address load y width sx m'
          ≡ ok (extend width sx (x % 256 ^ bytes width)) m')
      × (m'.mem j ≡ m.mem j)
load-store address x y width sx m j h outside = (
  stored m address width x,
  store-ram address x sx m width h,
  load-ram address y sx (stored m address width x) width h
      ∙ ap (λ v. ok (extend width sx v) (stored m address width x))
          (read_le-write_le m.mem (address % 2 ^ 29) (bytes width) x),
  write_le-outside m.mem (address % 2 ^ 29) (bytes width) x j outside,
)
