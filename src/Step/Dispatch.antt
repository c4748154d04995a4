-- ===== src/Step/Dispatch.antt =====
-- Instructions in and out of IT blocks.
use emculator.Prelude.{
  ◌∙◌, ap, ap₂, Bool, leb, ◌^◌, ℕ, ◌+◌, ◌≡◌, ◌<◌, ◌%◌, ◌≢◌, every_below, false, some, bit_or, ◌==◌,
  if◌then◌else◌, true, refl, arith, ==_iff, every_below-at,
}
use emculator.Word.{u32, ◌>>>◌, ◌<<<◌}
use emculator.Machine.{Run, Machine, Flags, ok, with_reg, with_psr, pc}
use emculator.Alu.Condition.{condition}
use emculator.It.Laws.{it_advance, next_state-it_advance}
use emculator.It.{it_state, next_state}
use emculator.Thumb16.Misc.{if_then, set_it_state}
use emculator.Step.{dispatch, execute, execute_in_it, is_32bit_instruction}

-- The machine with the IT state as the architecture's ITAdvance() leaves it.
abbrev pub advanced : Machine → Machine
advanced m = with_psr m (set_it_state (it_advance (it_state m.psr)) m.psr)

condition_it :
    (state cond : ℕ) (f : Flags) → condition (set_it_state state f) cond ≡ condition f cond
unfolding condition
condition_it state cond f = refl

state_table :
    every_below 256 (λ s. bit_or (it_advance s % 4) (it_advance s >>> 2 <<< 2) == it_advance s)
    ≡ true
unfolding every_below
state_table = refl

-- The architecture has an instruction of two halfwords from 0xe800 on.
is_32bit_instruction-leb : (i : ℕ) → i < 2 ^ 16 → is_32bit_instruction i ≡ leb 0xe800 i
unfolding is_32bit_instruction
is_32bit_instruction-leb i h = ground arith

advanced-it_state :
    (m : Machine) → it_state m.psr < 256 → it_state (advanced m).psr ≡ it_advance (it_state m.psr)
advanced-it_state m small = (==_iff _ _).0 (every_below-at 256 _ (it_state m.psr) state_table small)

stepped : Machine → Machine
stepped m = with_psr m (set_it_state (next_state (it_state m.psr)) m.psr)

stepped-advanced : (m : Machine) → it_state m.psr < 256 → stepped m ≡ advanced m
unfolding stepped
stepped-advanced m small =
    ap (λ (s : ℕ). with_psr m (set_it_state s m.psr)) (next_state-it_advance (it_state m.psr) small)

-- An instruction of `m` that is passed over, with `next` the machine but for the program counter.
abbrev behind : Machine → Bool → Machine → Run (Unit {0})
behind m long next = ok tt (if long then with_reg next pc (u32 (m.regs pc + 2)) else next)

dispatch_holds :
    (i : ℕ) (m : Machine)
    → m.psr.it2 ≢ 0
    → condition m.psr (it_state m.psr >>> 4) ≡ some true
    → dispatch i m ≡ execute i true (stepped m)
unfolding dispatch execute_in_it stepped
dispatch_holds i m h c =
    let in_block : (m.psr.it2 == 0) ≡ false = ground arith in
    rw (in_block, execute_in_it, condition_it, c) refl

dispatch_skips :
    (i : ℕ) (m : Machine)
    → m.psr.it2 ≢ 0
    → condition m.psr (it_state m.psr >>> 4) ≡ some false
    → dispatch i m ≡ behind m (is_32bit_instruction i) (stepped m)
unfolding dispatch execute_in_it stepped
dispatch_skips i m h c =
    let in_block : (m.psr.it2 == 0) ≡ false = ground arith in
    rw (in_block, execute_in_it, condition_it, c) (ground arith)

-- Inside an IT block that the code recognises, with a state of eight bits whose upper six are not
-- zero, any instruction whose condition is a valid one advances the state as the architecture's
-- ITAdvance() does. If the condition holds, the instruction is executed as one inside a block; if it
-- does not, it has no other effect, and the program counter moves behind its second halfword if its
-- first is 0xe800 or more.
pub dispatch-advanced :
    (i : ℕ) (m : Machine) (holds : Bool)
    → i < 2 ^ 16
    → it_state m.psr < 256
    → m.psr.it2 ≢ 0
    → condition m.psr (it_state m.psr >>> 4) ≡ some holds
    → (it_state (advanced m).psr ≡ it_advance (it_state m.psr))
      × (dispatch i m ≡ (
          if holds
          then execute i true (advanced m)
          else ok tt (
              if leb 0xe800 i then with_reg (advanced m) pc (u32 (m.regs pc + 2)) else advanced m)))
dispatch-advanced i m true half small h c = (
  advanced-it_state m small,
  dispatch_holds i m h c ∙ ap (execute i true) (stepped-advanced m small),
)
dispatch-advanced i m false half small h c = (
  advanced-it_state m small,
  dispatch_skips i m h c
      ∙ ap₂ (behind m) (is_32bit_instruction-leb i half) (stepped-advanced m small),
)

mask_table : every_below 4 (λ mask. bit_or (mask % 4) (mask >>> 2 <<< 2) == mask) ≡ true
unfolding every_below
mask_table = refl

-- The IT instructions ITTT, ITTTT and ITTTE for EQ (masks 2, 1 and 3) leave a state that is not zero,
-- and yet the next instruction is run unconditionally, and as one outside a block.
pub it_eq_ignored :
    (mask j : ℕ) (m : Machine)
    → 0 < mask
    → mask < 4
    → let m' = with_psr m (set_it_state mask m.psr) in
      (if_then (0xbf00 + mask) m ≡ ok tt m')
      × (it_state m'.psr ≡ mask)
      × (dispatch j m' ≡ execute j false m')
unfolding if_then dispatch
it_eq_ignored mask j m lo hi =
    (ground arith, (==_iff _ mask).0 (every_below-at 4 _ mask mask_table hi), ground arith)
