-- ===== src/Run.antt =====
-- `machine_run` of machine.c. Its loop need not end, so it
-- takes fuel; `running` is a run that is not over when the fuel is. Another thread may set `halt`
-- while it runs: `halts i` says whether it has done so before round `i`.
pub mod Laws
use emculator.Prelude.{◌+◌, ℕ, zero, suc, Bool, false, not, ◌&&◌, ◌||◌, ◌==◌, leb, if◌then◌else◌}
use emculator.Machine.{
  Machine, Error, err_halt, err_exit, Run, ok, err, sp, pc, log_calls_sp, log_instrs,
}
use emculator.Backtrace.{add_backtrace}
use emculator.Step.{machine_step}
use emculator.Control.{machine_halt}

-- How a run ends. `finished` is the return of 0, for a program that has left its reset handler.
pub data Outcome : Type 0 where
  running finished : Machine → Outcome
  stopped : Error → Machine → Outcome
  exited : Machine → Outcome
  ub : Outcome

-- The registers are printed when the stack pointer has moved, and that is remembered.
unfoldable pub note_sp : Machine → Machine
note_sp m =
    if leb log_instrs m.loglevel || (leb log_calls_sp m.loglevel && not (m.regs sp == m.last_sp))
    then record m { last_sp = m.regs sp }
    else m

-- What follows a step that did not return `ERR_OK`.
unfoldable pub stop : Error → Machine → Outcome
stop err_exit m = finished m
stop e m = elim (add_backtrace (m.regs pc) (m.regs sp) m) [
  | ok _ m' ↦ stopped e m'
  | err _ m' ↦ stopped e m'
  | Run.exited m' ↦ exited m'
  | Run.ub ↦ ub
]

-- One round of the loop: the end of the run, or the machine to go on with.
unfoldable pub round : Machine → Outcome
round m =
    if m.halt
    then stopped err_halt (record m { halt = false })
    else elim (machine_step (note_sp m)) [
      | ok _ m' ↦ running m'
      | err e m' ↦ stop e m'
      | Run.exited m' ↦ exited m'
      | Run.ub ↦ ub
    ]

-- The loop from round `i` on.
unfoldable pub machine_run : (ℕ → Bool) → ℕ → ℕ → Machine → Outcome
machine_run halts i zero m = running m
machine_run halts i (suc fuel) m = elim (round (if halts i then machine_halt m else m)) [
  | running m' ↦ machine_run halts (i + 1) fuel m'
  | finished m' ↦ finished m'
  | stopped e m' ↦ stopped e m'
  | exited m' ↦ exited m'
  | ub ↦ ub
]
