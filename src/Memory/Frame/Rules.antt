-- ===== src/Memory/Frame/Rules.antt =====
-- What an access through a pointer leaves alone, and the rules for the tests in front of it.
use emculator.Prelude.{
  ℕ, ◌%◌, ◌^◌, bit_and, ◌+◌, leb, ◌&&◌, not, ◌≡◌, refl, Bool, true, false, if◌then◌else◌,
}
use emculator.Machine.{
  raise, pure, ◌>>=◌, ◌>>◌, Op, and_then, Machine, TransferType, load, store, Width, Run, ok, err,
  exited, ub, err_mem,
}
use emculator.Memory.Pointer.{
  Ptr, null, flash, ram, ip, cpacr, pselreset, bytes, read_ptr, write_ptr,
}
use emculator.Memory.Peripheral.{misaligned_32}
use emculator.Memory.Bytes.{read_le, write_le}
use emculator.Memory.{unaligned, versioncheck, extend, access, store_flash, access_code}

-- A load leaves the two memories as they are.
abbrev pub LoadKeeps : TransferType → Machine → Machine → Type 0
LoadKeeps load m m' = (m'.mem ≡ m.mem) × (m'.image ≡ m.image)
LoadKeeps store m m' = Unit {0}

-- What an access that is over leaves as it was: the registers, the flags and the sizes, with an error
-- the whole machine.
abbrev pub Kept : TransferType → Machine → Run ℕ → Type 0
Kept type m (ok x m') =
    (m'.regs ≡ m.regs)
    × (m'.psr ≡ m.psr)
    × (m'.image_size ≡ m.image_size)
    × (m'.mem_size ≡ m.mem_size)
    × LoadKeeps type m m'
Kept type m (err e m') = (e ≡ err_mem) × (m' ≡ m)
Kept type m (exited m') =
    (m'.regs ≡ m.regs) × (m'.psr ≡ m.psr) × (m'.mem ≡ m.mem) × (m'.image ≡ m.image)
Kept type m ub = Unit {0}

pub Kept-if :
    (type : TransferType) (m : Machine) (b : Bool) (r s : Run ℕ)
    → Kept type m r
    → Kept type m s
    → Kept type m (if b then r else s)
Kept-if type m true r s p q = p
Kept-if type m false r s p q = q

pub Kept-same : (type : TransferType) (m : Machine) (x : ℕ) → Kept type m (ok x m)
Kept-same load m x = (refl, refl, refl, refl, (refl, refl))
Kept-same store m x = (refl, refl, refl, refl, tt)

-- The test of an alignment, in front of an access.
Kept-guard :
    (type : TransferType) (m : Machine) (b : Bool) (f g : Op ℕ)
    → Kept type m (f m)
    → Kept type m (g m)
    → Kept type m ((if b then f else g) m)
Kept-guard type m true f g p q = p
Kept-guard type m false f g p q = q

-- An access inside its array, or an undefined one.
pub inside-read :
    (type : TransferType) (m : Machine) (b : Bool) (a : ℕ) (k : ℕ → Op ℕ)
    → Kept type m (k a m)
    → Kept type m (and_then (if b then ok a m else ub) k)
inside-read type m true a k p = p
inside-read type m false a k p = tt

pub inside-write :
    (m : Machine) (b : Bool) (x : ℕ) (m' : Machine)
    → Kept store m (ok x m')
    → Kept store m (and_then (if b then ok tt m' else ub) (λ _. ok x))
inside-write m true x m' p = p
inside-write m false x m' p = tt

read-Kept :
    (p : Ptr) (n : ℕ) (type : TransferType) (k : ℕ → Op ℕ) (m : Machine)
    → ((v : ℕ) → Kept type m (k v m))
    → Kept type m (and_then (read_ptr p n m) k)
unfolding read_ptr
read-Kept null n type k m h = tt
read-Kept (flash o) n type k m h =
    inside-read type m (leb (o + n) m.image_size) (read_le m.image o n) k (h (read_le m.image o n))
read-Kept (ram o) n type k m h =
    inside-read type m (leb (o + n) m.mem_size) (read_le m.mem o n) k (h (read_le m.mem o n))
read-Kept (ip i) n type k m h =
    inside-read type m (leb (i + n) 32) (read_le m.nvic_ip i n) k (h (read_le m.nvic_ip i n))
read-Kept cpacr n type k m h = h (m.cpacr % 256 ^ n)
read-Kept (pselreset i) n type k m h = h (m.pselreset i % 256 ^ n)

write-Kept :
    (p : Ptr) (n y x : ℕ) (m : Machine) → Kept store m (and_then (write_ptr p n y m) (λ _. ok x))
unfolding write_ptr
write-Kept null n y x m = tt
write-Kept (flash o) n y x m =
    inside-write m (leb (o + n) m.image_size) x (record m { image = write_le m.image o n y })
      (refl, refl, refl, refl, tt)
write-Kept (ram o) n y x m =
    inside-write m (leb (o + n) m.mem_size) x (record m { mem = write_le m.mem o n y })
      (refl, refl, refl, refl, tt)
write-Kept (ip i) n y x m =
    inside-write m (leb (i + n) 32) x (record m { nvic_ip = write_le m.nvic_ip i n y })
      (refl, refl, refl, refl, tt)
write-Kept cpacr n y x m = (refl, refl, refl, refl, tt)
write-Kept (pselreset i) n y x m = (refl, refl, refl, refl, tt)

load-Kept :
    (p : Ptr) (address x : ℕ) (w : Width) (sx : Bool) (m : Machine)
    → Kept load m (
        (if unaligned address w && not versioncheck
            then raise err_mem
            else (do v ← read_ptr p (bytes w); pure (extend w sx v)))
          m)
load-Kept p address x w sx m =
    Kept-guard load m (unaligned address w && not versioncheck) (raise err_mem)
      (do v ← read_ptr p (bytes w); pure (extend w sx v)) (refl, refl)
      (read-Kept p (bytes w) load (λ v. pure (extend w sx v)) m
        (λ v. Kept-same load m (extend w sx v)))

store-Kept :
    (p : Ptr) (address x : ℕ) (w : Width) (m : Machine)
    → Kept store m (
        (if unaligned address w && not versioncheck
            then raise err_mem
            else (do write_ptr p (bytes w) x; pure x))
          m)
store-Kept p address x w m =
    Kept-guard store m (unaligned address w && not versioncheck) (raise err_mem)
      (do write_ptr p (bytes w) x; pure x) (refl, refl) (write-Kept p (bytes w) x x m)

pub pointed-Kept :
    (p : Ptr) (address : ℕ) (type : TransferType) (x : ℕ) (w : Width) (sx : Bool) (m : Machine)
    → Kept type m (access p address type x w sx m)
unfolding access
pointed-Kept null address type x w sx m = (refl, refl)
pointed-Kept p address load x w sx m = load-Kept p address x w sx m
pointed-Kept p address store x w sx m = store-Kept p address x w m

flash-Kept :
    (p : Ptr) (address x : ℕ) (w : Width) (m : Machine) → Kept store m (store_flash p address x w m)
unfolding store_flash
flash-Kept p address x w m =
    Kept-if store m (misaligned_32 address w) (err err_mem m) _ (refl, refl)
      (Kept-if store m (not m.image_writable) (err err_mem m) _ (refl, refl)
        (read-Kept p 4 store (λ old. write_ptr p 4 (bit_and old x) >> pure x) m
          (λ old. write-Kept p 4 (bit_and old x) x m)))

pub code-Kept :
    (p : Ptr) (address : ℕ) (type : TransferType) (x : ℕ) (w : Width) (sx : Bool) (m : Machine)
    → Kept type m (access_code p address type x w sx m)
unfolding access_code
code-Kept p address load x w sx m = pointed-Kept p address load x w sx m
code-Kept p address store x w sx m = flash-Kept p address x w m
