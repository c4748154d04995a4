-- ===== src/It.antt =====
-- The IT block of `machine_step`: how the state in the flags advances.
pub mod Laws
use emculator.Prelude.{ℕ, ◌==◌, if◌then◌else◌, bit_and, bit_or}
use emculator.Word.{◌<<<◌}
use emculator.Machine.{Flags}

-- `psr.it1 | (psr.it2 << 2)`.
abbrev pub it_state : Flags → ℕ
it_state f = bit_or f.it1 (f.it2 <<< 2)

-- `newstate`, with the reset when no instruction is left.
unfoldable pub next_state : ℕ → ℕ
next_state state =
    let newstate = bit_or (bit_and state 0b11100000) (bit_and (state <<< 1) 0b11111) in
    if bit_and newstate 0b1111 == 0 then 0 else newstate
