-- ===== src/Memory/Peripheral.antt =====
-- The peripheral region of `machine_transfer` in machine.c: UART0, RNG and NVMC.
use emculator.Prelude.{
  ℕ, ◌+◌, ◌%◌, ◌^◌, Bool, true, false, not, ◌&&◌, ◌||◌, ◌==◌, leb, if◌then◌else◌, bit_and,
}
use emculator.Word.{sub64}
use emculator.Terminal
use emculator.Terminal.{terminal_getchar, terminal_putchar}
use emculator.Machine.{
  TransferType, load, store, Width, width_8, width_16, width_32, Op, ok, err, exited, ub, err_mem,
}
use emculator.Memory.Bytes.{fill}

abbrev pub is_load : TransferType → Bool
is_load load = true
is_load store = false

abbrev pub is_store : TransferType → Bool
is_store load = false
is_store store = true

abbrev pub is_width_32 : Width → Bool
is_width_32 width_32 = true
is_width_32 _ = false

-- `(address & 3) != 0 || width != WIDTH_32`.
abbrev pub misaligned_32 : ℕ → Width → Bool
misaligned_32 address width = not (address % 4 == 0) || not (is_width_32 width)

-- UART RXD: `value = terminal_getchar()`.
unfoldable pub uart_receive : Op ℕ
uart_receive m = elim (terminal_getchar m.terminal) [
  | Terminal.char c t ↦ ok c (record m { terminal = t })
  | Terminal.exited t ↦ exited (record m { terminal = t })
]

-- RNG.VALUE: `value = rand() & 0xff`.
unfoldable pub rng_value : Op ℕ
rng_value m = ok (m.rands m.rand_calls % 256) (record m { rand_calls = m.rand_calls + 1 })

-- NVMC.ERASEPAGE, with `page` in `*reg`.
unfoldable pub erase_page : ℕ → Op ℕ
erase_page page m =
    if not (bit_and page (sub64 m.pagesize 1) == 0) || leb m.image_size page
    then err err_mem m
    else if leb (page + m.pagesize) m.image_size
    then ok 0 (record m { image = fill m.image page 0xff m.pagesize })
    else ub

-- The chain of peripheral addresses: the value that a load gives, with the effects of the access.
unfoldable pub peripheral_value : ℕ → TransferType → ℕ → Op ℕ
unfolding uart_receive rng_value erase_page
peripheral_value address type x m =
    if is_store type && address == 0x40002000
    then ok 0 m
    else if is_store type && address == 0x40002004
    then ok 0 m
    else if is_store type && address == 0x40002008
    then ok 0 m
    else if is_store type && address == 0x4000200c
    then ok 0 m
    else if address == 0x40002108
    then ok 1 m
    else if address == 0x4000211c
    then ok 1 m
    else if address == 0x40002124
    then ok 0 m
    else if address == 0x40002144
    then ok 0 m
    else if is_load type && address == 0x40002518
    then uart_receive m
    else if is_store type && address == 0x4000251c
    then ok 0 (record m { terminal = terminal_putchar x m.terminal })
    else if is_load type && address == 0x4000d100
    then ok 1 m
    else if is_load type && address == 0x4000d508
    then rng_value m
    else if is_load type && address == 0x4001e400
    then ok 1 m
    else if is_store type && address == 0x4001e504
    then ok 0 (record m { image_writable = not (x == 0) })
    else if is_store type && address == 0x4001e508
    then erase_page x m
    else ok 0 m

-- `value` cut to the width of the access.
abbrev pub cut : Width → ℕ → ℕ
cut width_8 x = x % 2 ^ 8
cut width_16 x = x % 2 ^ 16
cut width_32 x = x

-- The whole region: a load gives the value, a store leaves `*reg` as it is.
unfoldable pub transfer_peripheral : ℕ → TransferType → ℕ → Width → Op ℕ
transfer_peripheral address type x width m =
    if misaligned_32 address width
    then err err_mem m
    else elim (peripheral_value address type x m) [
      | ok value m' ↦ ok (if is_load type then cut width value else x) m'
      | err e m' ↦ err e m'
      | exited m' ↦ exited m'
      | ub ↦ ub
    ]
