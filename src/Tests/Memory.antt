-- ===== src/Tests/Memory.antt =====
-- Witnesses for the memory and the terminal.
use emculator.Prelude.{ℕ, ◌≡◌, refl, false, true, ◌∷◌, arith, bit_and, ◌≤◌, inl, []}
use emculator.Machine.{Machine, ok, err, err_mem, load, store, width_16, width_32}
use emculator.Memory.{machine_transfer}
use emculator.Memory.Frame.{machine_transfer-Kept}
use emculator.Memory.Frame.Rules.{Kept}
use emculator.Memory.Ram.{load-store}
use emculator.Memory.Flash.{store-flash_refused, flash_clears}
use emculator.Terminal.{
  Terminal, terminal_getchar, char, exited, terminal_enable_raw, terminal_disable_raw, minus_one,
  set_raw, terminal_init, restore, save, exit, atexit,
}
use emculator.Terminal.Laws.{enable_disable, terminal_getchar-char, terminal_getchar-exit}
use emculator.Tests.Samples.{board}

load-store_example :
    (m' : Machine) × (machine_transfer 0x20000010 store 0x12ff80 width_16 true board
      ≡ ok 0x12ff80 m')
    × (machine_transfer 0x20000010 load 0 width_16 true m' ≡ ok 0xffffff80 m')
    × (m'.mem 0x12 ≡ 0)
load-store_example =
    load-store 0x20000010 0x12ff80 0 width_16 true board 0x12 (omega arith) (omega arith)

store-flash_refused_example : machine_transfer 0x40 store 5 width_32 false board ≡ err err_mem board
store-flash_refused_example =
    store-flash_refused 0x40 5 false board refl (omega arith) width_32 (inl refl)

flash_clears_example :
    (old : ℕ) × (m' : Machine) × (machine_transfer 0x40 load 0 width_32 false
        (record board { image_writable = true })
      ≡ ok old (record board { image_writable = true }))
    × (machine_transfer 0x40 store 5 width_32 false (record board { image_writable = true })
        ≡ ok 5 m')
    × (machine_transfer 0x40 load 0 width_32 false m' ≡ ok (bit_and old 5) m')
    × (bit_and old 5 ≤ old)
    × (m'.image 0x44 ≡ 0xff)
flash_clears_example =
    flash_clears 0x40 5 0 false (record board { image_writable = true }) 0x44 refl (omega arith)
      refl refl (λ i. omega arith) (omega arith)

terminal_getchar-char_example :
    (t' : Terminal) × (terminal_getchar board.terminal ≡ char 65 t')
    × (t'.enabled_raw ≡ true)
    × (t'.reads ≡ 1)
    × (t'.buf ≡ minus_one)
    × (t'.events ≡ (terminal_enable_raw board.terminal).events)
terminal_getchar-char_example = terminal_getchar-char board.terminal refl (omega arith)

abbrev leaving : Terminal
leaving = terminal_init (λ _. 24)

terminal_getchar-exit_example :
    (t' : Terminal) × (terminal_getchar leaving ≡ exited t')
    × (t'.enabled_raw ≡ false)
    × (t'.events ≡ restore ∷ exit ∷ (terminal_enable_raw leaving).events)
terminal_getchar-exit_example = terminal_getchar-exit leaving refl (inl refl) refl

enable_disable_example :
    let t = board.terminal in
    (terminal_enable_raw (terminal_enable_raw t) ≡ terminal_enable_raw t)
    × ((terminal_enable_raw t).events ≡ set_raw ∷ save ∷ atexit ∷ [])
    × ((terminal_disable_raw (terminal_enable_raw t)).events
        ≡ restore ∷ set_raw ∷ save ∷ atexit ∷ [])
    × ((terminal_disable_raw (terminal_disable_raw (terminal_enable_raw t))).events
        ≡ restore ∷ set_raw ∷ save ∷ atexit ∷ [])
enable_disable_example = enable_disable board.terminal refl

machine_transfer-Kept_example :
    Kept store board (machine_transfer 0x20000010 store 0xffff width_16 false board)
machine_transfer-Kept_example = machine_transfer-Kept 0x20000010 store 0xffff width_16 false board
