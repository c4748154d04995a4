-- ===== src/Thumb32.antt =====
-- The 32-bit instructions of `machine_step` with prefix 1111. The second halfword is fetched and
-- the program counter is past it.
pub mod Common
pub mod Multiple
pub mod Immediate
pub mod Branch
pub mod Single
pub mod Register
use emculator.Prelude.{ℕ, ◌/◌, ◌^◌, ◌&&◌, ◌==◌, if◌then◌else◌, bit_and}
use emculator.Word.{◌>>>◌}
use emculator.Machine.{Op, skip}
use Common.{undo_undefined}
use Immediate.{immediate}
use Branch.{branch_link, branch_conditional}
use Single.{single}
use Register.{data_register}

unfoldable pub thumb32_1111 : ℕ → ℕ → Op (Unit {0})
thumb32_1111 hw1 hw2 =
    if (hw1 >>> 11 == 0b11110) && (hw2 >>> 15 == 0)
    then immediate hw1 hw2
    else if (hw1 >>> 4 == 0b111100111011) && (hw2 >>> 14 == 0b10)
    then skip
    else if (hw1 >>> 11 == 0b11110) && (bit_and (hw2 >>> 11) 0b10111 == 0b10111)
    then branch_link hw1 hw2
    else if (hw1 >>> 11 == 0b11110) && (bit_and (hw2 >>> 12) 0b1101 == 0b1000)
    then branch_conditional hw1 hw2
    else if hw1 >>> 9 == 0b1111100
    then single hw1 hw2
    else if hw1 >>> 9 == 0b1111101
    then data_register hw1 hw2
    else undo_undefined
