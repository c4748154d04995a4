-- ===== src/Step/Guards.antt =====
-- What `machine_step` does before it runs an instruction.
use emculator.Prelude.{
  ◌≢◌, ◌⊎◌, inl, inr, sym, lt_or_ge, refl, Bool-cases, ==_iff, ℕ, ◌+◌, ◌*◌, ◌^◌, ◌≡◌, ◌-◌, false,
  ◌≤◌, ◌%◌, ◌<◌, ◌==◌, arith, ◌/◌, ltb, le→leb, true, ◌∙◌, ap,
}
use emculator.Word.{u32, sub32, sub64}
use emculator.Machine.{Error, err, err_break, err_exit, err_pc, Machine, ok, with_reg, pc}
use emculator.Memory.Bytes.{read_le}
use emculator.Step.{machine_step, dispatch, fetch, at_break}

-- The size of a flash that `machine_create` accepts, with whole halfwords and 32-bit addresses.
abbrev pub IsFlashSize : ℕ → Type 0
IsFlashSize size = (64 ≤ size) × (size ≤ 2 ^ 29) × (size % 2 ≡ 0)

-- The halfword at the program counter, which has the Thumb bit.
abbrev pub instruction_at : Machine → ℕ
instruction_at m = read_le m.image (m.regs pc - 1) 2

fetch-ok :
    (m : Machine)
    → m.regs pc % 2 ≡ 1
    → m.regs pc + 2 < 2 ^ 32
    → m.regs pc + 1 ≤ m.image_size
    → fetch m ≡ ok (instruction_at m) (with_reg m pc (m.regs pc + 2))
unfolding fetch
fetch-ok m odd small inside =
    let down : m.regs pc / 2 * 2 ≡ m.regs pc - 1 = omega arith in
    let next : u32 (m.regs pc + 2) ≡ m.regs pc + 2 = omega arith in
    rw (down, next, le→leb (m.regs pc - 1 + 2) m.image_size (omega arith))

-- None of the four breakpoints is at `address`.
abbrev pub NoBreak : Machine → ℕ → Type 0
NoBreak m address =
    (m.hwbreak 0 ≢ address)
    × (m.hwbreak 1 ≢ address)
    × (m.hwbreak 2 ≢ address)
    × (m.hwbreak 3 ≢ address)

-- Why a step may end before it has fetched anything, by the error code: a breakpoint at the
-- instruction; else the return address that a reset puts into LR; else an even address, or one with
-- no whole word from it in the flash.
abbrev pub Refused : Machine → Error → Type 0
Refused m err_break = (k : ℕ) × (k < 4) × (m.hwbreak k ≡ sub32 (m.regs pc) 1)
Refused m err_exit = NoBreak m (sub32 (m.regs pc) 1) × (m.regs pc ≡ 0xdeadbeef)
Refused m err_pc =
    NoBreak m (sub32 (m.regs pc) 1)
    × (m.regs pc ≢ 0xdeadbeef)
    × ((m.regs pc % 2 ≡ 0) ⊎ (m.image_size < m.regs pc + 2))
Refused m _ = ⊥

-- The step runs the instruction, with the program counter behind it, and a second fetch is in the
-- flash too.
abbrev pub Fetches : Machine → Type 0
Fetches m =
    let next = with_reg m pc (m.regs pc + 2) in
    NoBreak m (sub32 (m.regs pc) 1)
    × (m.regs pc % 2 ≡ 1)
    × (m.regs pc + 3 ≤ m.image_size)
    × (machine_step m ≡ dispatch (instruction_at m) next)
    × (fetch next ≡ ok (instruction_at next) (with_reg next pc (m.regs pc + 4)))

break_found : (m : Machine) (a : ℕ) → at_break m a ≡ true → (k : ℕ) × (k < 4) × (m.hwbreak k ≡ a)
unfolding at_break
break_found m a h = elim (Bool-cases (a == m.hwbreak 0)) [
  | inl e ↦ (0, omega arith, sym ((==_iff _ _).0 e))
  | inr n0 ↦ elim (Bool-cases (a == m.hwbreak 1)) [
    | inl e ↦ (1, omega arith, sym ((==_iff _ _).0 e))
    | inr n1 ↦ elim (Bool-cases (a == m.hwbreak 2)) [
      | inl e ↦ (2, omega arith, sym ((==_iff _ _).0 e))
      | inr n2 ↦ (3, omega arith, ground arith)
    ]
  ]
]

break_absent : (m : Machine) (a : ℕ) → at_break m a ≡ false → NoBreak m a
unfolding at_break
break_absent m a h = ground arith

step-Fetches :
    (m : Machine)
    → IsFlashSize m.image_size
    → at_break m (sub32 (m.regs pc) 1) ≡ false
    → m.regs pc ≤ m.image_size - 2
    → m.regs pc % 2 ≡ 1
    → Fetches m
unfolding machine_step
step-Fetches m s free inside odd = (
  break_absent m (sub32 (m.regs pc) 1) free,
  odd,
  omega arith,
  (let no_exit : (m.regs pc == 0xdeadbeef) ≡ false = ground arith in
      let in_range : ltb (sub64 m.image_size 2) (m.regs pc) ≡ false = ground arith in
      let thumb : (m.regs pc % 2 == 1) ≡ true = ground arith in
      rw (free, no_exit, in_range, thumb, fetch-ok m odd (omega arith) (omega arith))),
  (let next = with_reg m pc (m.regs pc + 2) in
      let four : m.regs pc + 2 + 2 ≡ m.regs pc + 4 = omega arith in
      fetch-ok next (omega arith) (omega arith) (omega arith)
      ∙ ap (λ k. ok (instruction_at next) (with_reg next pc k)) four),
)

step_breaks :
    (m : Machine) → at_break m (sub32 (m.regs pc) 1) ≡ true → machine_step m ≡ err err_break m
unfolding machine_step
step_breaks m h = rw h refl

step_exits :
    (m : Machine)
    → at_break m (sub32 (m.regs pc) 1) ≡ false
    → m.regs pc ≡ 0xdeadbeef
    → machine_step m ≡ err err_exit m
unfolding machine_step
step_exits m free e =
    let here : (m.regs pc == 0xdeadbeef) ≡ true = ground arith in rw (free, here) refl

step_outside :
    (m : Machine)
    → IsFlashSize m.image_size
    → at_break m (sub32 (m.regs pc) 1) ≡ false
    → (m.regs pc == 0xdeadbeef) ≡ false
    → m.image_size < m.regs pc + 2
    → machine_step m ≡ err err_pc m
unfolding machine_step
step_outside m s free go out =
    let beyond : ltb (sub64 m.image_size 2) (m.regs pc) ≡ true = ground arith in
    rw (free, go, beyond) refl

step_even :
    (m : Machine)
    → IsFlashSize m.image_size
    → at_break m (sub32 (m.regs pc) 1) ≡ false
    → (m.regs pc == 0xdeadbeef) ≡ false
    → m.regs pc ≤ m.image_size - 2
    → m.regs pc % 2 ≡ 0
    → machine_step m ≡ err err_pc m
unfolding machine_step
step_even m s free go inside even =
    let in_range : ltb (sub64 m.image_size 2) (m.regs pc) ≡ false = ground arith in
    let not_thumb : (m.regs pc % 2 == 1) ≡ false = ground arith in
    rw (free, go, in_range, not_thumb) refl

-- With a flash of 64 to 2 ^ 29 bytes in whole halfwords, a step either ends with an error code that
-- says why the program counter cannot be executed, and changes nothing; or the program counter is at
-- no breakpoint, odd and inside the flash, the step dispatches the halfword there with the program
-- counter behind it, and neither this fetch nor that of a second halfword reads out of bounds.
pub machine_step-fetch :
    (m : Machine)
    → IsFlashSize m.image_size
    → ((e : Error) × (machine_step m ≡ err e m) × Refused m e) ⊎ Fetches m
machine_step-fetch m s = elim (Bool-cases (at_break m (sub32 (m.regs pc) 1))) [
  | inl hit ↦ inl (err_break, step_breaks m hit, break_found m (sub32 (m.regs pc) 1) hit)
  | inr free ↦ unbroken free
]
  where
    absent : at_break m (sub32 (m.regs pc) 1) ≡ false → NoBreak m (sub32 (m.regs pc) 1)
    absent free = break_absent m (sub32 (m.regs pc) 1) free

    inside :
        at_break m (sub32 (m.regs pc) 1) ≡ false
        → (m.regs pc == 0xdeadbeef) ≡ false
        → m.regs pc ≤ m.image_size - 2
        → ((e : Error) × (machine_step m ≡ err e m) × Refused m e) ⊎ Fetches m
    inside free go low = elim (Bool-cases (m.regs pc % 2 == 1)) [
      | inl thumb ↦ inr (step-Fetches m s free low ((==_iff _ _).0 thumb))
      | inr arm ↦ inl (
        err_pc,
        step_even m s free go low (ground arith),
        (absent free, ground arith, inl (ground arith)),
      )
    ]

    unbroken :
        at_break m (sub32 (m.regs pc) 1) ≡ false
        → ((e : Error) × (machine_step m ≡ err e m) × Refused m e) ⊎ Fetches m
    unbroken free = elim (Bool-cases (m.regs pc == 0xdeadbeef)) [
      | inl e ↦
          inl (err_exit, step_exits m free ((==_iff _ _).0 e), (absent free, (==_iff _ _).0 e))
      | inr go ↦ elim (lt_or_ge m.image_size (m.regs pc + 2)) [
        | inl out ↦ inl (err_pc, step_outside m s free go out, (absent free, ground arith, inr out))
        | inr low ↦ inside free go (omega arith)
      ]
    ]
