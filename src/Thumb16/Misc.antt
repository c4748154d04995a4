-- ===== src/Thumb16/Misc.antt =====
-- `machine_step` of machine.c: the 16-bit address, stack, breakpoint and IT instructions, and the
-- branches of formats 16 and 18.
use emculator.Prelude.{ℕ, ◌+◌, ◌*◌, ◌/◌, ◌%◌, not, ◌==◌, bool_ne, if◌then◌else◌, none, some}
use emculator.Word.{u32, sub32, ◌<<<◌, ◌>>>◌, field, flag, sar}
use emculator.Machine.{
  Flags, Op, ok, err_undefined, err_break, raise, when, ◌>>=◌, reg, set_reg, with_psr, pc, sp,
  log_error, log_instrs,
}
use emculator.Alu.Condition.{condition}

-- Format 12: load address.
unfoldable pub format_12 : ℕ → Op (Unit {0})
format_12 i = do
  base ← if flag i 11 then reg sp else (do at ← reg pc; ok (u32 (at + 2) / 4 * 4))
  set_reg (field i 8 3) (u32 (base + (field i 0 8 <<< 2)))

-- Format 13: add offset to Stack Pointer.
unfoldable pub format_13 : ℕ → Op (Unit {0})
format_13 i = do
  stack ← reg sp
  set_reg sp (if flag i 7 then sub32 stack (field i 0 6 * 4) else u32 (stack + field i 0 6 * 4))

-- CBZ / CBNZ.
unfoldable pub compare_branch : ℕ → Op (Unit {0})
compare_branch i = do
  x ← reg (field i 0 3)
  at ← reg pc
  when (not (bool_ne (x == 0) (not (flag i 11))))
      (set_reg pc (u32 (at + ((field i 9 1 <<< 6) + (field i 3 5 <<< 1) + 2))))

-- BKPT: two numbers only change the log level.
unfoldable pub breakpoint : ℕ → Op (Unit {0})
breakpoint i m =
    if field i 0 8 == 0x81
    then ok tt (record m { loglevel = log_instrs })
    else if field i 0 8 == 0x80
    then ok tt (record m { loglevel = log_error })
    else raise err_break m

-- `psr.it1 = state & 0b11; psr.it2 = state >> 2;`
abbrev pub set_it_state : ℕ → Flags → Flags
set_it_state state f = record f { it1 = state % 4; it2 = state >>> 2 }

-- IT and the hints, which are ignored. `(firstcond << 4) | mask` is a sum.
unfoldable pub if_then : ℕ → Op (Unit {0})
if_then i m =
    if field i 0 4 == 0
    then ok tt m
    else ok tt (with_psr m (set_it_state ((field i 4 4 <<< 4) + field i 0 4) m.psr))

-- Format 16: conditional branch.
unfoldable pub format_16 : ℕ → Op (Unit {0})
format_16 i m = elim (condition m.psr (field i 8 4)) [
  | none ↦ raise err_undefined m
  | some b ↦
      when b (do at ← reg pc; set_reg pc (u32 (at + u32 (sar (field i 0 8 <<< 24) 23 + 2)))) m
]

-- Format 18: unconditional branch.
unfoldable pub format_18 : ℕ → Op (Unit {0})
format_18 i = do at ← reg pc; set_reg pc (u32 (at + u32 (sar (field i 0 11 <<< 21) 20 + 2)))
