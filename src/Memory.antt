-- ===== src/Memory.antt =====
-- `machine_transfer` of machine.c: a load or store of 8, 16 or 32 bits. `*reg` is passed in and
-- its new value is the result, since the function reads and writes it only through the pointer.
pub mod Bytes
pub mod Pointer
pub mod Peripheral
pub mod Ram
pub mod Flash
pub mod Frame
use emculator.Prelude.{
  ℕ, ◌/◌, ◌%◌, ◌^◌, Bool, true, false, not, ◌&&◌, ◌||◌, ◌==◌, ltb, if◌then◌else◌, bit_and,
}
use emculator.Word.{◌>>>◌, sign_extend}
use emculator.Machine.{
  Machine, TransferType, load, store, Width, width_8, width_16, width_32, Run, Op, ok, err, exited,
  ub, err_mem, pure, raise, ◌>>=◌, ◌>>◌,
}
use Pointer.{Ptr, null, cpacr, flash, ram, ip, pselreset, bytes, read_ptr, write_ptr}
use Peripheral.{is_load, is_store, misaligned_32, transfer_peripheral}

-- `machine_versioncheck(machine, CORTEX_M4)` of the native build.
abbrev pub versioncheck : Bool
versioncheck = true

-- An access of this width that is not aligned.
abbrev pub unaligned : ℕ → Width → Bool
unaligned address width_8 = false
unaligned address width_16 = not (address % 2 == 0)
unaligned address width_32 = not (address % 4 == 0)

-- What a load of this width leaves in `*reg`.
abbrev pub extend : Width → Bool → ℕ → ℕ
extend width_8 signextend x = if signextend then sign_extend 8 x else x
extend width_16 signextend x = if signextend then sign_extend 16 x else x
extend width_32 signextend x = x

-- The end of the function: the access through `ptr`.
unfoldable pub access : Ptr → ℕ → TransferType → ℕ → Width → Bool → Op ℕ
access null _ _ _ _ _ = raise err_mem
access p address load x width signextend =
    if unaligned address width && not versioncheck
    then raise err_mem
    else (do v ← read_ptr p (bytes width); pure (extend width signextend v))
access p address store x width signextend =
    if unaligned address width && not versioncheck
    then raise err_mem
    else (do write_ptr p (bytes width) x; pure x)

-- A store in the code region: it emulates NOR memory, where bits can only be cleared.
unfoldable pub store_flash : Ptr → ℕ → ℕ → Width → Op ℕ
store_flash p address x width m =
    if misaligned_32 address width
    then err err_mem m
    else if not m.image_writable
    then err err_mem m
    else (do old ← read_ptr p 4; write_ptr p 4 (bit_and old x); pure x) m

-- What the code region does with a pointer that is not null.
unfoldable pub access_code : Ptr → ℕ → TransferType → ℕ → Width → Bool → Op ℕ
unfolding access store_flash
access_code p address load x width signextend = access p address load x width signextend
access_code p address store x width signextend = store_flash p address x width

-- code: 0x00000000 .. 0x1fffffff
unfoldable pub transfer_code : ℕ → TransferType → ℕ → Width → Bool → Op ℕ
unfolding access_code access
transfer_code address type x width signextend m =
    if ltb (address % 2 ^ 29) m.image_size
    then access_code (flash (address % 2 ^ 29)) address type x width signextend m
    else if is_load type && address == 0x10000130
    then ok 0 m
    else if address == 0x10001200
    then access_code (pselreset 0) address type x width signextend m
    else if address == 0x10001204
    then access_code (pselreset 1) address type x width signextend m
    else access null address type x width signextend m

-- SRAM: 0x20000000 .. 0x3fffffff
unfoldable pub transfer_sram : ℕ → TransferType → ℕ → Width → Bool → Op ℕ
unfolding access
transfer_sram address type x width signextend m =
    if ltb (address % 2 ^ 29) m.mem_size
    then access (ram (address % 2 ^ 29)) address type x width signextend m
    else access null address type x width signextend m

-- Private peripheral bus + Device: 0xe0000000 .. 0xffffffff. The masks with 0xfffffff0 drop the
-- low four bits.
unfoldable pub transfer_private : ℕ → TransferType → ℕ → Width → Bool → Op ℕ
unfolding access
transfer_private address type x width signextend m =
    if address == 0xe000e100 && is_store type
    then ok x m
    else if address == 0xe000e180 && is_store type
    then ok x m
    else if address >>> 4 == 0xf0000fe && is_load type
    then ok 0 m
    else if address >>> 4 == 0xe000e40
    then access (ip (address % 32)) address type x width signextend m
    else if address == 0xe000ed88
    then access cpacr address type x width signextend m
    else access null address type x width signextend m

-- `machine_transfer(machine, address, type, &x, width, signextend)`.
unfoldable pub machine_transfer : ℕ → TransferType → ℕ → Width → Bool → Op ℕ
unfolding transfer_code transfer_sram transfer_peripheral transfer_private access
machine_transfer address type x width signextend m =
    if address >>> 29 == 0
    then transfer_code address type x width signextend m
    else if address >>> 29 == 1
    then transfer_sram address type x width signextend m
    else if address >>> 29 == 2
    then transfer_peripheral address type x width m
    else if address >>> 29 == 7
    then transfer_private address type x width signextend m
    else access null address type x width signextend m
