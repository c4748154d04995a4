-- ===== src/Memory/Frame.antt =====
-- What an access to memory leaves alone, region by region.
pub mod Rules
use emculator.Prelude.{
  ℕ, ltb, ◌==◌, ◌%◌, ◌^◌, bit_and, ◌+◌, leb, ◌&&◌, ◌||◌, not, ◌≡◌, refl, Bool, true, false,
  if◌then◌else◌,
}
use emculator.Terminal
use emculator.Terminal.{Reply, terminal_getchar, terminal_putchar}
use emculator.Machine.{
  raise, pure, ◌>>=◌, ◌>>◌, Op, and_then, Machine, TransferType, load, store, Width, Run, ok, err,
  exited, ub, err_mem, Error,
}
use emculator.Memory.Pointer.{
  Ptr, null, flash, ram, ip, cpacr, pselreset, bytes, read_ptr, write_ptr,
}
use emculator.Word.{◌>>>◌, sub64}
use emculator.Memory.Peripheral.{
  cut, uart_receive, erase_page, rng_value, is_load, is_store, misaligned_32, transfer_peripheral,
  peripheral_value,
}
use emculator.Memory.Bytes.{fill, read_le, write_le}
use emculator.Memory.{
  unaligned, versioncheck, extend, access, store_flash, access_code, transfer_code, transfer_sram,
  transfer_private, machine_transfer,
}
use emculator.Memory.Frame.Rules.{Kept, Kept-if, Kept-same, pointed-Kept, code-Kept}

module _ (address : ℕ) (type : TransferType) (x : ℕ) (w : Width) (sx : Bool) (m : Machine) where
  null-Kept : Kept type m (access null address type x w sx m)
  null-Kept = pointed-Kept null address type x w sx m

  code_region-Kept : Kept type m (transfer_code address type x w sx m)
  unfolding transfer_code
  code_region-Kept =
      Kept-if type m (ltb (address % 2 ^ 29) m.image_size) _ _
        (code-Kept (flash (address % 2 ^ 29)) address type x w sx m)
        (Kept-if type m (is_load type && address == 0x10000130) (ok 0 m) _ (Kept-same type m 0) (
          Kept-if type m (address == 0x10001200) _ _ (code-Kept (pselreset 0) address type x w sx m)
            (Kept-if type m (address == 0x10001204) _ (access null address type x w sx m)
              (code-Kept (pselreset 1) address type x w sx m) null-Kept)))

  sram-Kept : Kept type m (transfer_sram address type x w sx m)
  unfolding transfer_sram
  sram-Kept =
      Kept-if type m (ltb (address % 2 ^ 29) m.mem_size) _ (access null address type x w sx m)
        (pointed-Kept (ram (address % 2 ^ 29)) address type x w sx m) null-Kept

  private-Kept : Kept type m (transfer_private address type x w sx m)
  unfolding transfer_private
  private-Kept =
      Kept-if type m (address == 0xe000e100 && is_store type) (ok x m) _ (Kept-same type m x) (
        Kept-if type m (address == 0xe000e180 && is_store type) (ok x m) _ (Kept-same type m x) (
          Kept-if type m (address >>> 4 == 0xf0000fe && is_load type) (ok 0 m) _
            (Kept-same type m 0)
            (Kept-if type m (address >>> 4 == 0xe000e40) _ _
              (pointed-Kept (ip (address % 32)) address type x w sx m)
              (Kept-if type m (address == 0xe000ed88) _ (access null address type x w sx m)
                (pointed-Kept cpacr address type x w sx m) null-Kept))))

reply-Kept :
    (m : Machine) (r : Reply)
    → Kept load m (elim r [
      | Terminal.char c t ↦ ok c (record m { terminal = t })
      | Terminal.exited t ↦ exited (record m { terminal = t })
    ])
reply-Kept m (Terminal.char c t) = (refl, refl, refl, refl, (refl, refl))
reply-Kept m (Terminal.exited t) = (refl, refl, refl, refl)

uart_receive-Kept : (m : Machine) → Kept load m (uart_receive m)
unfolding uart_receive
uart_receive-Kept m = reply-Kept m (terminal_getchar m.terminal)

erase_page-Kept : (x : ℕ) (m : Machine) → Kept store m (erase_page x m)
unfolding erase_page
erase_page-Kept x m =
    Kept-if store m (not (bit_and x (sub64 m.pagesize 1) == 0) || leb m.image_size x)
      (err err_mem m) _ (refl, refl)
      (Kept-if store m (leb (x + m.pagesize) m.image_size)
        (ok 0 (record m { image = fill m.image x 0xff m.pagesize })) ub (refl, refl, refl, refl, tt)
        tt)

load_value-Kept : (address x : ℕ) (m : Machine) → Kept load m (peripheral_value address load x m)
unfolding peripheral_value rng_value
load_value-Kept address x m =
    Kept-if load m (address == 0x40002108) (ok 1 m) _ (Kept-same load m 1) (
      Kept-if load m (address == 0x4000211c) (ok 1 m) _ (Kept-same load m 1) (
        Kept-if load m (address == 0x40002124) (ok 0 m) _ (Kept-same load m 0) (
          Kept-if load m (address == 0x40002144) (ok 0 m) _ (Kept-same load m 0) (
            Kept-if load m (address == 0x40002518) (uart_receive m) _ (uart_receive-Kept m) (
              Kept-if load m (address == 0x4000d100) (ok 1 m) _ (Kept-same load m 1) (
                Kept-if load m (address == 0x4000d508)
                  (ok (m.rands m.rand_calls % 256) (record m { rand_calls = m.rand_calls + 1 })) _
                  (refl, refl, refl, refl, (refl, refl))
                  (Kept-if load m (address == 0x4001e400) (ok 1 m) (ok 0 m) (Kept-same load m 1)
                    (Kept-same load m 0))))))))

store_value-Kept : (address x : ℕ) (m : Machine) → Kept store m (peripheral_value address store x m)
unfolding peripheral_value
store_value-Kept address x m = same (address == 0x40002000) 0 _ (
    same (address == 0x40002004) 0 _ (
      same (address == 0x40002008) 0 _ (
        same (address == 0x4000200c) 0 _ (
          same (address == 0x40002108) 1 _ (
            same (address == 0x4000211c) 1 _ (
              same (address == 0x40002124) 0 _ (
                same (address == 0x40002144) 0 _ (
                  Kept-if store m (address == 0x4000251c)
                    (ok 0 (record m { terminal = terminal_putchar x m.terminal })) _
                    (refl, refl, refl, refl, tt)
                    (Kept-if store m (address == 0x4001e504)
                      (ok 0 (record m { image_writable = not (x == 0) })) _
                      (refl, refl, refl, refl, tt)
                      (Kept-if store m (address == 0x4001e508) (erase_page x m) (ok 0 m)
                        (erase_page-Kept x m) (Kept-same store m 0)))))))))))
  where
    same : (b : Bool) (v : ℕ) (r : Run ℕ) → Kept store m r → Kept store m (if b then ok v m else r)
    same b v r p = Kept-if store m b (ok v m) r (Kept-same store m v) p

value-Kept :
    (address : ℕ) (type : TransferType) (x : ℕ) (m : Machine)
    → Kept type m (peripheral_value address type x m)
value-Kept address load x m = load_value-Kept address x m
value-Kept address store x m = store_value-Kept address x m

cut-Kept :
    (type : TransferType) (m : Machine) (f : ℕ → ℕ) (r : Run ℕ)
    → Kept type m r
    → Kept type m (elim r [
      | ok value m' ↦ ok (f value) m'
      | err e m' ↦ err e m'
      | exited m' ↦ exited m'
      | ub ↦ ub
    ])
cut-Kept type m f (ok v m') p = p
cut-Kept type m f (err e m') p = p
cut-Kept type m f (exited m') p = p
cut-Kept type m f ub p = tt

-- An access to memory of any kind that succeeds changes no register, no flag and neither of the memory
-- sizes, and as a load neither of the two memories; one that fails has the error code of the memory and
-- changes nothing at all; and one that ends the program leaves the
-- registers, the flags and the two memories. The word behind the register pointer is not among these:
-- it is passed by value and its new value returned.
pub machine_transfer-Kept :
    (address : ℕ) (type : TransferType) (x : ℕ) (w : Width) (sx : Bool) (m : Machine)
    → Kept type m (machine_transfer address type x w sx m)
unfolding machine_transfer transfer_peripheral
machine_transfer-Kept address type x w sx m =
    Kept-if type m (address >>> 29 == 0) _ _ (code_region-Kept address type x w sx m) (
      Kept-if type m (address >>> 29 == 1) _ _ (sram-Kept address type x w sx m) (
        Kept-if type m (address >>> 29 == 2) _ _ peripheral (
          Kept-if type m (address >>> 29 == 7) _ _ (private-Kept address type x w sx m)
            (null-Kept address type x w sx m))))
  where
    peripheral : Kept type m (transfer_peripheral address type x w m)
    peripheral =
        Kept-if type m (misaligned_32 address w) (err err_mem m) _ (refl, refl)
          (cut-Kept type m (λ v. if is_load type then cut w v else x)
            (peripheral_value address type x m) (value-Kept address type x m))
