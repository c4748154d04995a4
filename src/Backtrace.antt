-- ===== src/Backtrace.antt =====
-- `machine_add_backtrace` of machine.c: the emulator's own record of the calls in progress.
pub mod Laws
use emculator.Prelude.{ℕ, zero, suc, ◌+◌, ◌^◌, leb, ltb, if◌then◌else◌}
use emculator.Machine.{Machine, Item, backtrace_len, Op, ok, ub, update}

-- The `while` loop, from depth `d`: leaf functions that have already returned are dropped.
unfoldable pub trim : (ℕ → Item) → ℕ → ℕ → ℕ
trim backtrace sp zero = zero
trim backtrace sp (suc d) = if leb (backtrace d).sp sp then trim backtrace sp d else suc d

-- The body behind `call_depth++`, with `depth` the new call depth.
unfoldable pub push_item : ℕ → ℕ → ℕ → Machine → Machine
unfolding trim
push_item depth pc sp m =
    if ltb depth backtrace_len
    then (let d = trim m.backtrace sp depth in
        record m { call_depth = d; backtrace = update m.backtrace d (record { pc = pc; sp = sp }) })
    else record m { call_depth = depth }

-- The `int` overflows in the last case.
unfoldable pub add_backtrace : ℕ → ℕ → Op (Unit {0})
unfolding push_item
add_backtrace pc sp m =
    if ltb (m.call_depth + 1) (2 ^ 31) then ok tt (push_item (m.call_depth + 1) pc sp m) else ub
