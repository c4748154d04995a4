-- ===== src/Terminal.antt =====
-- terminal.c: raw input and output. The static variables are a record. The C library and the
-- terminal device are outside: what the successive calls of `getchar` return is the function
-- `input`, the calls that change something outside are recorded in `events`, newest first, and the
-- C library's list of exit handlers, which holds no other than `terminal_disable_raw`, is its length.
pub mod Laws
use emculator.Prelude.{
  ℕ, zero, suc, ◌+◌, ◌-◌, ◌%◌, ◌^◌, Bool, true, false, List, [], ◌∷◌, ◌==◌, if◌then◌else◌,
}
use emculator.Word.{is_neg}

-- `set_raw` and `restore` are the two `tcsetattr` calls, `save` is `tcgetattr`.
pub data Event : Type 0 where
  atexit save set_raw restore exit : Event
  write : ℕ → Event

-- An `int` is its bit pattern, so that -1 is 2 ^ 32 - 1.
pub record Terminal : Type 0 where
  pub buf : ℕ
  pub enabled_raw : Bool
  pub input : ℕ → ℕ
  pub reads : ℕ
  pub handlers : ℕ
  pub events : List Event

abbrev pub minus_one : ℕ
minus_one = 2 ^ 32 - 1

-- The static initialisers.
abbrev pub terminal_init : (ℕ → ℕ) → Terminal
terminal_init input = record {
  buf = minus_one;
  enabled_raw = false;
  input = input;
  reads = 0;
  handlers = 0;
  events = [];
}

-- What `getchar` gives; `exited` is a call of `exit(0)`, which does not return.
pub data Reply : Type 0 where
  char : ℕ → Terminal → Reply
  exited : Terminal → Reply

unfoldable pub terminal_disable_raw : Terminal → Terminal
terminal_disable_raw t =
    if t.enabled_raw then record t { enabled_raw = false; events = restore ∷ t.events } else t

unfoldable pub terminal_enable_raw : Terminal → Terminal
terminal_enable_raw t = if t.enabled_raw then t else record t {
  enabled_raw = true;
  handlers = t.handlers + 1;
  events = set_raw ∷ save ∷ atexit ∷ t.events;
}

-- What the C library does at an exit: it calls `terminal_disable_raw` once for each registration.
unfoldable pub run_handlers : ℕ → Terminal → Terminal
run_handlers zero t = t
run_handlers (suc n) t = run_handlers n (terminal_disable_raw t)

-- `exit(0)`.
unfoldable pub exit_program : Terminal → Terminal
exit_program t = run_handlers t.handlers (record t { handlers = 0; events = exit ∷ t.events })

-- `terminal_getchar_raw`, behind the call of `terminal_enable_raw`.
unfoldable pub read_char : Terminal → Reply
read_char t =
    if is_neg t.buf
    then (let c = t.input t.reads in
        let t' : Terminal = record t { reads = t.reads + 1 } in
        if c == 24 then exited (exit_program t') else char c t')
    else char t.buf (record t { buf = minus_one })

unfoldable pub terminal_getchar_raw : Terminal → Reply
terminal_getchar_raw t = read_char (terminal_enable_raw t)

unfoldable pub terminal_getchar : Terminal → Reply
terminal_getchar t = terminal_getchar_raw t

-- `write` of one byte at the address of an `int`: its low byte.
unfoldable pub terminal_putchar : ℕ → Terminal → Terminal
terminal_putchar c t = record t { events = write (c % 256) ∷ t.events }
