-- ===== src/Tests/Samples.antt =====
-- The machines that the tests run on.
use emculator.Prelude.{ℕ, List, [], ◌∷◌, zero, suc, ◌+◌, ◌%◌, ◌/◌}
use emculator.Machine.{Machine, with_reg, pc}
use emculator.Control.{new_machine}

-- A machine as `machine_create` makes it: 1024 bytes of flash in pages of 256, 256 bytes of memory.
abbrev pub board : Machine
board = new_machine (λ _. 65) (λ _. 7) 1024 256 256 1

-- The bytes of a program.
abbrev pub byte_at : List ℕ → ℕ → ℕ
byte_at [] o = 0xff
byte_at (x ∷ xs) zero = x
byte_at (x ∷ xs) (suc o) = byte_at xs o

-- Halfwords as bytes.
abbrev pub halfwords : List ℕ → List ℕ
halfwords [] = []
halfwords (x ∷ xs) = (x % 256) ∷ (x / 256) ∷ halfwords xs

-- The board with a program at the bottom of its flash, about to run the instruction at `start`.
abbrev pub programmed : List ℕ → ℕ → Machine
programmed code start = with_reg (record board { image = byte_at (halfwords code) }) pc (start + 1)
