-- ===== src/Alu/Condition.antt =====
-- `machine_condition` of machine.c. `none` is the -1 of an invalid condition.
use emculator.Prelude.{ℕ, Bool, not, ◌&&◌, ◌||◌, ◌==◌, bool_ne, if◌then◌else◌, Option, none, some}
use emculator.Machine.{Flags}

unfoldable pub condition : Flags → ℕ → Option Bool
condition f cond =
    if cond == 0b0000
    then some f.z
    else if cond == 0b0001
    then some (not f.z)
    else if cond == 0b0010
    then some f.c
    else if cond == 0b0011
    then some (not f.c)
    else if cond == 0b0100
    then some f.n
    else if cond == 0b0101
    then some (not f.n)
    else if cond == 0b1000
    then some (f.c && not f.z)
    else if cond == 0b1001
    then some (not f.c || f.z)
    else if cond == 0b1010
    then some (not (bool_ne f.n f.v))
    else if cond == 0b1011
    then some (bool_ne f.n f.v)
    else if cond == 0b1100
    then some (not f.z && not (bool_ne f.n f.v))
    else if cond == 0b1101
    then some (f.z || bool_ne f.n f.v)
    else none
