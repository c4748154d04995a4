-- ===== src/Machine.antt =====
-- machine.h: the emulated machine as a record, the error codes, and the monad of the functions
-- that work on a `machine_t *`. A function that may fail returns `err` with the machine as it
-- then is; a step that C leaves undefined, such as an access out of bounds, is `ub`.
use emculator.Prelude.{ℕ, ◌+◌, ◌*◌, ◌^◌, Bool, ◌==◌, bit, if◌then◌else◌}
use emculator.Word.{is_neg}
use emculator.Terminal.{Terminal}

-- `flags_t`. The fields of one bit are Booleans; `it2` has 6 bits, `it1` has 2.
pub record Flags : Type 0 where
  pub t : Bool
  pub it2 : ℕ
  pub it1 : ℕ
  pub v : Bool
  pub c : Bool
  pub z : Bool
  pub n : Bool

-- The word that `flags_t` overlays, with bit fields laid out from the lowest bit up.
unfoldable pub psr_word : Flags → ℕ
psr_word f =
    bit f.t * 2 ^ 4
    + f.it2 * 2 ^ 9
    + f.it1 * 2 ^ 26
    + bit f.v * 2 ^ 28
    + bit f.c * 2 ^ 29
    + bit f.z * 2 ^ 30
    + bit f.n * 2 ^ 31

-- `backtrace_item_t`.
pub record Item : Type 0 where
  pub pc : ℕ
  pub sp : ℕ

-- `MACHINE_BACKTRACE_LEN`.
abbrev pub backtrace_len : ℕ
backtrace_len = 100

-- `machine_t`. Arrays are functions of the index; `image` and `mem` hold bytes. `terminal` and
-- the answers of `rand` stand outside `machine_t` in the source.
pub record Machine : Type 0 where
  pub regs : ℕ → ℕ
  pub psr : Flags
  pub image : ℕ → ℕ
  pub image_size : ℕ
  pub image_writable : Bool
  pub pagesize : ℕ
  pub mem : ℕ → ℕ
  pub mem_size : ℕ
  pub nvic_ip : ℕ → ℕ
  pub cpacr : ℕ
  pub pselreset : ℕ → ℕ
  pub call_depth : ℕ
  pub backtrace : ℕ → Item
  pub last_sp : ℕ
  pub hwbreak : ℕ → ℕ
  pub loglevel : ℕ
  pub halt : Bool
  pub terminal : Terminal
  pub rands : ℕ → ℕ
  pub rand_calls : ℕ

-- The registers with a name.
abbrev pub sp : ℕ
sp = 13

abbrev pub lr : ℕ
lr = 14

abbrev pub pc : ℕ
pc = 15

pub data Width : Type 0 where
  width_8 width_16 width_32 : Width

pub data TransferType : Type 0 where
  load store : TransferType

-- The error codes other than `ERR_OK`.
pub data Error : Type 0 where
  err_halt err_exit err_break err_divzero err_mem err_pc err_undefined : Error

-- The log levels.
abbrev pub log_error : ℕ
log_error = 1

abbrev pub log_calls_sp : ℕ
log_calls_sp = 4

abbrev pub log_instrs : ℕ
log_instrs = 5

-- `exited` is a call of `exit`, which ends the program.
pub data Run (A : Type 0) : Type 0 where
  ok : A → Machine → Run A
  err : Error → Machine → Run A
  exited : Machine → Run A
  ub : Run A

abbrev pub Op : Type 0 → Type 0
Op A = Machine → Run A

abbrev pub pure : {A : Type 0} → A → Op A
pure = ok

abbrev pub skip : Op (Unit {0})
skip = ok tt

abbrev pub raise : {A : Type 0} → Error → Op A
raise e m = err e m

abbrev pub undefined : {A : Type 0} → Op A
undefined m = ub

abbrev pub get : Op Machine
get m = ok m m

abbrev pub put : Machine → Op (Unit {0})
put m' m = ok tt m'

module _ {A B : Type 0} where
  abbrev pub and_then : Run A → (A → Op B) → Run B
  and_then (ok a m) k = k a m
  and_then (err e m) k = err e m
  and_then (exited m) k = exited m
  and_then ub k = ub

  infixl 5 ◌>>=◌ ◌>>◌
  abbrev pub ◌>>=◌ : Op A → (A → Op B) → Op B
  m >>= k = λ s. and_then (m s) k

  abbrev pub ◌>>◌ : Op A → Op B → Op B
  m >> n = m >>= λ _. n

-- A call whose error code is dropped.
abbrev pub ignore_error : Run (Unit {0}) → Run (Unit {0})
ignore_error (err e m) = ok tt m
ignore_error r = r

-- `if (b) { body }`.
abbrev pub when : Bool → Op (Unit {0}) → Op (Unit {0})
when b body = if b then body else skip

-- `f` with the value at `i` replaced.
abbrev pub update : {A : Type 0} → (ℕ → A) → ℕ → A → ℕ → A
update f i x j = if j == i then x else f j

-- `machine->regs[r]` as a value and as a target.
abbrev pub reg : ℕ → Op ℕ
reg r m = ok (m.regs r) m

abbrev pub with_reg : Machine → ℕ → ℕ → Machine
with_reg m r x = record m { regs = update m.regs r x }

abbrev pub set_reg : ℕ → ℕ → Op (Unit {0})
set_reg r x m = ok tt (with_reg m r x)

abbrev pub with_psr : Machine → Flags → Machine
with_psr m f = record m { psr = f }

abbrev pub set_carry : Bool → Op (Unit {0})
set_carry b m = ok tt (with_psr m (record m.psr { c = b }))

-- `psr.n = (int32_t)x < 0; psr.z = x == 0;`
abbrev pub set_nz : ℕ → Op (Unit {0})
set_nz x m = ok tt (with_psr m (record m.psr { n = is_neg x; z = x == 0 }))
