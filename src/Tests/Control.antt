-- ===== src/Tests/Control.antt =====
-- Witnesses for the IT block, the step, the control functions, the run and the backtrace.
use emculator.Prelude.{
  ◌≢◌, ◌⊎◌, ◌*◌, ◌-◌, ◌≡◌, refl, arith, ◌∷◌, false, some, true, ◌==◌, inl, [], ◌+◌,
}
use emculator.Word.{u32}
use emculator.Machine.{Error, Machine, ok, err, err_break, err_halt, with_reg, with_psr, pc, sp, lr}
use emculator.Alu.Condition.{condition}
use emculator.It.{it_state}
use emculator.It.Laws.{advance, next_state-covered}
use emculator.Thumb16.Misc.{if_then, set_it_state}
use emculator.Step.{machine_step, dispatch, execute}
use emculator.Step.Guards.{Refused, Fetches, machine_step-fetch}
use emculator.Step.Dispatch.{it_eq_ignored, dispatch-advanced, advanced}
use emculator.Control.{machine_create, machine_load, machine_reset, machine_break, machine_halt}
use emculator.Control.Laws.{machine_break-machine_step, load-reset}
use emculator.Run.{stopped, machine_run}
use emculator.Run.Laws.{IsOver, machine_run-ends, machine_run-halt}
use emculator.Backtrace.{push_item}
use emculator.Backtrace.Laws.{Falls, KeptOrDropped, push_item-stack}
use emculator.Memory.Bytes.{read_le}
use emculator.Tests.Samples.{board, programmed}

next_state-covered_example : (advance 2 0b00011100 ≡ 0) × (advance 1 0b00011100 ≢ 0)
next_state-covered_example =
    next_state-covered 0b00011100 1 (omega arith) (omega arith) (omega arith)

-- NOP; MOVS r0, #42
abbrev answer : Machine
answer = programmed (0xbf00 ∷ 0x202a ∷ []) 2

machine_step-fetch_example :
    ((e : Error) × (machine_step answer ≡ err e answer) × Refused answer e) ⊎ Fetches answer
machine_step-fetch_example = machine_step-fetch answer (omega arith)

it_eq_ignored_example :
    let m' = with_psr board (set_it_state 2 board.psr) in
    (if_then 0xbf02 board ≡ ok tt m')
    × (it_state m'.psr ≡ 2)
    × (dispatch 0x202a m' ≡ execute 0x202a false m')
it_eq_ignored_example = it_eq_ignored 2 0x202a board (omega arith) (omega arith)

-- Inside a block of one instruction for NE, with Z set.
abbrev in_block : Machine
in_block = with_psr board (set_it_state 0b00011000 (record board.psr { z = true }))

-- A 32-bit instruction that is passed over.
dispatch-advanced_example :
    (it_state (advanced in_block).psr ≡ 0)
    × (dispatch 0xf3ef in_block
        ≡ ok tt (with_reg (advanced in_block) pc (u32 (in_block.regs pc + 2))))
dispatch-advanced_example =
    dispatch-advanced 0xf3ef in_block false (omega arith) (omega arith) (omega arith)
      (unfold condition in refl)

machine_break-machine_step_example :
    let m' = (machine_break answer 2 2).0 in
    ((machine_break answer 2 2).1 ≡ true)
    × (machine_step m' ≡ err err_break m')
    × (m'.hwbreak 3 ≡ 0)
machine_break-machine_step_example =
    machine_break-machine_step answer 2 3 2 (omega arith) (omega arith) refl (omega arith)

load-reset_example :
    (m : Machine) × (machine_create (λ _. 65) (λ _. 7) 1024 256 256 1 ≡ some m)
    × ((machine_reset (machine_load (λ o. o) 8 m)).regs sp ≡ read_le (λ o. o) 0 4)
    × ((machine_reset (machine_load (λ o. o) 8 m)).regs pc ≡ read_le (λ o. o) 4 4)
    × ((machine_reset (machine_load (λ o. o) 8 m)).regs lr ≡ 0xdeadbeef)
load-reset_example =
    load-reset (λ _. 65) (λ _. 7) (λ o. o) 1024 256 256 1 8 (omega arith) (omega arith)

machine_run-halt_example :
    machine_run (λ _. false) 0 5 (machine_halt board) ≡ stopped err_halt board
unfolding machine_halt
machine_run-halt_example = machine_run-halt (λ _. false) 0 4 (machine_halt board) (inl refl)

machine_run-ends_example :
    IsOver (machine_run (λ i. i == 3) 0 4 board)
    × (machine_run (λ i. i == 3) 0 11 board ≡ machine_run (λ i. i == 3) 0 4 board)
machine_run-ends_example = machine_run-ends (λ i. i == 3) 3 7 board refl

-- Two calls in progress.
abbrev calling : Machine
calling = record board {
  call_depth = 2;
  backtrace = λ i. record { pc = 0x20 * i; sp = 0x20000100 - 0x40 * i };
}

-- The second has returned when the third is made.
push_item-stack_example :
    let m' = push_item 3 0x60 0x20000090 calling in
    Falls m'.backtrace m'.call_depth
    × (m'.backtrace m'.call_depth ≡ (record { pc = 0x60; sp = 0x20000090 }))
    × KeptOrDropped calling m' 0x20000090 2
push_item-stack_example =
    push_item-stack 0x60 0x20000090 calling 2 (λ i j lo lt le. omega arith) (omega arith)
      (omega arith) (omega arith)
