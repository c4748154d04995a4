-- ===== src/Terminal/Laws.antt =====
-- What the functions of terminal.c guarantee to the device and to the reader of characters.
use emculator.Prelude.{
  ◌+◌, ◌≡◌, ◌≢◌, refl, true, false, ◌∷◌, arith, ◌⊎◌, ◌<◌, ℕ, suc, zero, ◌∙◌, ap,
}
use emculator.Terminal.{
  atexit, save, set_raw, restore, exit, Terminal, char, exited, terminal_disable_raw,
  terminal_enable_raw, terminal_getchar, minus_one, exit_program, run_handlers, read_char,
  terminal_getchar_raw,
}

-- Enabling is idempotent, and disabling after the first enabling restores the saved mode: raw mode
-- is entered once however often it is asked for.
pub enable_disable :
    (t : Terminal)
    → t.enabled_raw ≡ false
    → (terminal_enable_raw (terminal_enable_raw t) ≡ terminal_enable_raw t)
      × ((terminal_enable_raw t).events ≡ set_raw ∷ save ∷ atexit ∷ t.events)
      × ((terminal_disable_raw (terminal_enable_raw t)).events
          ≡ restore ∷ set_raw ∷ save ∷ atexit ∷ t.events)
      × ((terminal_disable_raw (terminal_disable_raw (terminal_enable_raw t))).events
          ≡ restore ∷ set_raw ∷ save ∷ atexit ∷ t.events)
unfolding terminal_enable_raw terminal_disable_raw
enable_disable t h = ground arith

module _ (t : Terminal) (empty : t.buf ≡ minus_one) where
  -- With nothing buffered, a read takes one character of the input and returns it, whatever it is but
  -- Ctrl-X (24). The terminal is raw afterwards, and nothing is written.
  pub terminal_getchar-char :
      t.input t.reads ≢ 24
      → (t' : Terminal) × (terminal_getchar t ≡ char (t.input t.reads) t')
        × (t'.enabled_raw ≡ true)
        × (t'.reads ≡ t.reads + 1)
        × (t'.buf ≡ minus_one)
        × (t'.events ≡ (terminal_enable_raw t).events)
  unfolding terminal_getchar terminal_getchar_raw read_char terminal_enable_raw
  terminal_getchar-char ne = (
    record t {
      enabled_raw = true;
      reads = t.reads + 1;
      handlers = (terminal_enable_raw t).handlers;
      events = (terminal_enable_raw t).events;
    },
    ground arith,
    refl,
    refl,
    empty,
    refl,
  )

-- A terminal in raw mode has a handler registered that leaves it.
abbrev pub IsCovered : Terminal → Type 0
IsCovered t = (t.enabled_raw ≡ false) ⊎ (0 < t.handlers)

enabled-handlers : (t : Terminal) → IsCovered t → 0 < (terminal_enable_raw t).handlers
unfolding terminal_enable_raw
enabled-handlers t c = ground arith

enabled-raw : (t : Terminal) → (terminal_enable_raw t).enabled_raw ≡ true
unfolding terminal_enable_raw
enabled-raw t = ground arith

enabled-input :
    (t : Terminal)
    → ((terminal_enable_raw t).buf ≡ t.buf)
      × ((terminal_enable_raw t).input (terminal_enable_raw t).reads ≡ t.input t.reads)
unfolding terminal_enable_raw
enabled-input t = ground arith

disabled_twice : (t : Terminal) → t.enabled_raw ≡ false → terminal_disable_raw t ≡ t
unfolding terminal_disable_raw
disabled_twice t off = ground arith

-- Handlers that find the terminal as it was change nothing more.
run_handlers-disabled : (n : ℕ) (t : Terminal) → t.enabled_raw ≡ false → run_handlers n t ≡ t
unfolding run_handlers
run_handlers-disabled zero t off = refl
run_handlers-disabled (suc n) t off = rw (disabled_twice t off) (run_handlers-disabled n t off)

-- However many are registered, the first restores the mode and the others do nothing.
run_handlers-raw :
    (n : ℕ) (t : Terminal)
    → t.enabled_raw ≡ true
    → 0 < n
    → run_handlers n t ≡ record t { enabled_raw = false; events = restore ∷ t.events }
unfolding run_handlers terminal_disable_raw
run_handlers-raw zero t on some_handler = absurd (omega arith)
run_handlers-raw (suc n) t on some_handler =
    rw on
      (run_handlers-disabled n (record t { enabled_raw = false; events = restore ∷ t.events }) refl)

exit_program-raw :
    (t : Terminal)
    → t.enabled_raw ≡ true
    → 0 < t.handlers
    → exit_program t
      ≡ record t { enabled_raw = false; handlers = 0; events = restore ∷ exit ∷ t.events }
unfolding exit_program
exit_program-raw t on some_handler =
    run_handlers-raw t.handlers (record t { handlers = 0; events = exit ∷ t.events }) on
      some_handler

read_char-exit :
    (t : Terminal)
    → t.buf ≡ minus_one
    → t.input t.reads ≡ 24
    → read_char t ≡ exited (exit_program (record t { reads = t.reads + 1 }))
unfolding read_char
read_char-exit t empty ctrl_x = ground arith

-- With nothing buffered, Ctrl-X ends the program. The exit runs the handlers that were registered,
-- which put the terminal back in the mode that it had, once, if a terminal that is in raw mode already
-- has such a handler.
pub terminal_getchar-exit :
    (t : Terminal)
    → t.buf ≡ minus_one
    → IsCovered t
    → t.input t.reads ≡ 24
    → (t' : Terminal) × (terminal_getchar t ≡ exited t')
      × (t'.enabled_raw ≡ false)
      × (t'.events ≡ restore ∷ exit ∷ (terminal_enable_raw t).events)
unfolding terminal_getchar terminal_getchar_raw
terminal_getchar-exit t empty covered ctrl_x =
    let raw : Terminal = terminal_enable_raw t in
    let same = enabled-input t in
    (
      record raw {
        enabled_raw = false;
        reads = raw.reads + 1;
        handlers = 0;
        events = restore ∷ exit ∷ raw.events;
      },
      read_char-exit raw (same.0 ∙ empty) (same.1 ∙ ctrl_x)
          ∙ ap exited (
              exit_program-raw (record raw { reads = raw.reads + 1 }) (enabled-raw t)
                (enabled-handlers t covered)),
      refl,
      refl,
    )
