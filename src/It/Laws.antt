-- ===== src/It/Laws.antt =====
-- How an IT block advances and ends.
use emculator.Prelude.{
  ◌≢◌, arith, ℕ, ◌+◌, ◌%◌, ◌<◌, ◌≡◌, ◌==◌, Bool, suc, ==_iff, every_below, if◌then◌else◌, ◌&&◌,
  every_below-at, not, ◌||◌, true, refl, zero,
}
use emculator.Word.{◌<<<◌, field}
use emculator.It.{next_state}

-- The architecture's ITAdvance(): the base condition stays, the low five bits shift to the left,
-- and the block is over when the last three bits are zero.
abbrev pub it_advance : ℕ → ℕ
it_advance state =
    if field state 0 3 == 0 then 0 else (field state 5 3 <<< 5) + field (state <<< 1) 0 5

next_state_table : every_below 256 (λ s. next_state s == it_advance s) ≡ true
unfolding next_state every_below
next_state_table = refl

-- The new state is ITAdvance() of the old one, for each state of eight bits.
pub next_state-it_advance : (state : ℕ) → state < 256 → next_state state ≡ it_advance state
next_state-it_advance state h = (==_iff _ _).0 (every_below-at 256 _ state next_state_table h)

-- The number of instructions that an IT instruction with this mask covers.
abbrev pub covered : ℕ → ℕ
covered mask =
    if mask % 2 == 1
    then 4
    else if mask % 4 == 2
    then 3
    else if mask % 8 == 4
    then 2
    else if mask % 16 == 8
    then 1
    else 0

-- The state after `n` instructions.
unfoldable pub advance : ℕ → ℕ → ℕ
advance zero state = state
advance (suc n) state = advance n (next_state state)

-- Whether the state is zero behind the last covered instruction and at none before it.
abbrev ends_at : ℕ → ℕ → Bool
ends_at n state = (advance n state == 0) && every_below n (λ k. not (advance k state == 0))

covered_table : every_below 256 (λ s. ends_at (covered s) s || (s % 16 == 0)) ≡ true
unfolding next_state advance every_below
covered_table = refl

ends-at :
    (n state : ℕ)
    → ends_at n state ≡ true
    → (advance n state ≡ 0) × (every_below n (λ k. not (advance k state == 0)) ≡ true)
ends-at n state h = ground arith

covered-ends : (state : ℕ) → state < 256 → state % 16 ≢ 0 → ends_at (covered state) state ≡ true
covered-ends state h mask = let either = every_below-at 256 _ state covered_table h in ground arith

-- An IT state of eight bits with a mask that is not zero, advanced by the code's update of the state, is
-- zero behind the last of the instructions that the mask covers, from one to four, and at none before.
pub next_state-covered :
    (state k : ℕ)
    → state < 256
    → state % 16 ≢ 0
    → k < covered state
    → (advance (covered state) state ≡ 0) × (advance k state ≢ 0)
next_state-covered state k h mask inside =
    let ends = ends-at (covered state) state (covered-ends state h mask) in
    let before = every_below-at (covered state) _ k ends.1 inside in (ends.0, ground arith)
