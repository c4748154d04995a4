-- ===== src/Block.antt =====
-- `machine_instr_stmdb`, `machine_instr_stmia`, `machine_instr_ldmdb` and `machine_instr_ldmia`
-- of machine.c. A loop returns the address that it ends at; `transfer_reg` is a
-- `machine_transfer` with `reg` pointing at a register.
pub mod Laws
pub mod Restore
use emculator.Prelude.{ℕ, zero, suc, ◌+◌, Bool, false, if◌then◌else◌}
use emculator.Word.{u32, sub32, flag}
use emculator.Machine.{
  TransferType, load, store, Width, width_32, Op, skip, pure, when, ◌>>=◌, ◌>>◌, reg, set_reg,
}
use emculator.Memory.{machine_transfer}

unfoldable pub transfer_reg : ℕ → TransferType → ℕ → Width → Bool → Op (Unit {0})
transfer_reg address load r width signextend = do
  old ← reg r
  x ← machine_transfer address load old width signextend
  set_reg r x
transfer_reg address store r width signextend = do
  x ← reg r
  _ ← machine_transfer address store x width signextend
  skip

-- Registers `i - 1` down to 0, each below the last address.
unfoldable pub down_loop : TransferType → ℕ → ℕ → ℕ → Op ℕ
down_loop type reg_list zero address = pure address
down_loop type reg_list (suc i) address =
    if flag reg_list i
    then (do
      transfer_reg (sub32 address 4) type i width_32 false
      down_loop type reg_list i (sub32 address 4))
    else down_loop type reg_list i address

-- Registers `i` up to `i + left - 1`, each above the last address.
unfoldable pub up_loop : TransferType → ℕ → ℕ → ℕ → ℕ → Op ℕ
up_loop type reg_list zero i address = pure address
up_loop type reg_list (suc left) i address =
    if flag reg_list i
    then (do
      transfer_reg address type i width_32 false
      up_loop type reg_list left (i + 1) (u32 (address + 4)))
    else up_loop type reg_list left (i + 1) address

unfoldable pub instr_stmdb : ℕ → ℕ → Bool → Op (Unit {0})
instr_stmdb r reg_list wback = do
  start ← reg r
  address ← down_loop store reg_list 15 start
  when wback (set_reg r address)

unfoldable pub instr_stmia : ℕ → ℕ → Bool → Op (Unit {0})
instr_stmia r reg_list wback = do
  start ← reg r
  address ← up_loop store reg_list 16 0 start
  when wback (set_reg r address)

unfoldable pub instr_ldmdb : ℕ → ℕ → Bool → Op (Unit {0})
instr_ldmdb r reg_list wback = do
  start ← reg r
  address ← down_loop load reg_list 15 start
  when wback (set_reg r address)

unfoldable pub instr_ldmia : ℕ → ℕ → Bool → Op (Unit {0})
instr_ldmia r reg_list wback = do
  start ← reg r
  address ← up_loop load reg_list 16 0 start
  when wback (set_reg r address)
