-- ===== src/Thumb32/Common.antt =====
-- What the 32-bit instructions of `machine_step` share: how an unknown one is undone.
use emculator.Word.{sub32}
use emculator.Machine.{
  Error, Op, ok, err, exited, ub, err_undefined, raise, ◌>>=◌, ◌>>◌, reg, set_reg, pc,
}

-- `*pc -= 2; return e;`
abbrev pub undo : Error → Op (Unit {0})
undo e = do at ← reg pc; set_reg pc (sub32 at 2); raise e

abbrev pub undo_undefined : Op (Unit {0})
undo_undefined = undo err_undefined

-- `if (err != ERR_OK) { *pc -= 2; return err; }`
abbrev pub undo_on_error : Op (Unit {0}) → Op (Unit {0})
undo_on_error op m = elim (op m) [
  | err e m' ↦ undo e m'
  | ok u m' ↦ ok u m'
  | exited m' ↦ exited m'
  | ub ↦ ub
]
