-- ===== src/Alu/Shift.antt =====
-- `machine_instr_lsl`, `machine_instr_lsr` and `machine_instr_asr` of machine.c. A C shift by 32
-- or more is undefined.
pub mod Laws
use emculator.Prelude.{ℕ, Bool, not, ◌&&◌, ◌==◌, leb, ltb, if◌then◌else◌}
use emculator.Word.{u32, sub32, ◌<<<◌, ◌>>>◌, sar, flag}
use emculator.Machine.{Op, pure, undefined, when, ◌>>=◌, ◌>>◌, set_carry}

-- `x << k`, `x >> k` on uint32_t and `(int32_t)x >> k`.
abbrev pub shl32 : ℕ → ℕ → Op ℕ
shl32 x k = if ltb k 32 then pure (u32 (x <<< k)) else undefined

abbrev pub shr32 : ℕ → ℕ → Op ℕ
shr32 x k = if ltb k 32 then pure (x >>> k) else undefined

abbrev pub sar32 : ℕ → ℕ → Op ℕ
sar32 x k = if ltb k 32 then pure (sar x k) else undefined

unfoldable pub instr_lsl : ℕ → ℕ → Bool → Op ℕ
instr_lsl src shift setflags = do
  when (setflags && not (shift == 0)) (do x ← shr32 src (sub32 32 shift); set_carry (flag x 0))
  if leb 32 shift then pure 0 else shl32 src shift

unfoldable pub instr_lsr : ℕ → ℕ → Bool → Op ℕ
instr_lsr src shift setflags =
    if leb 32 shift then (do when setflags (set_carry (flag src 31)); pure 0) else (do
      when (not (shift == 0) && setflags) (do x ← shr32 src (sub32 shift 1); set_carry (flag x 0))
      shr32 src shift)

-- `shift` is unsigned, so the branch for a negative one is never taken.
unfoldable pub instr_asr : ℕ → ℕ → Bool → Op ℕ
instr_asr src shift setflags =
    if leb 32 shift
    then (do when setflags (set_carry (flag (sar src 31) 0)); pure (sar (sar src 16) 16))
    else (do
      when setflags (do x ← sar32 src (sub32 shift 1); set_carry (flag x 0))
      sar32 src shift)
