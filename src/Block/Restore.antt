-- ===== src/Block/Restore.antt =====
-- What PUSH saves, POP restores.
use mathlib.Core.Bool.{true≢false}
use emculator.Prelude.{
  ℕ, zero, suc, ◌+◌, ◌*◌, ◌^◌, ◌≡◌, ◌≤◌, ◌<◌, true, false, if◌then◌else◌, arith, refl, ap, subst,
  ◌∙◌, ◌||◌, ◌==◌, Bool-cases, lt_or_ge, inl, inr, sym,
}
use emculator.Word.{IsU32, u32, flag}
use emculator.Machine.{Machine, ok, load, with_reg, update, sp}
use emculator.Memory.Bytes.{read_le}
use emculator.Block.Laws.{
  sram, below, below-on, below-off, below-le, saved, saved-word, load_word, down_loop-saved,
}
use emculator.Block.{up_loop, instr_stmdb, instr_ldmia}

-- The registers after those of a list from `i` on have been loaded with their values in `src`.
restored : (ℕ → ℕ) → (ℕ → ℕ) → ℕ → ℕ → ℕ → (ℕ → ℕ)
restored g src reg_list zero i = g
restored g src reg_list (suc left) i =
    restored (if flag reg_list i then update g i (src i) else g) src reg_list left (i + 1)

restored-before :
    (src : ℕ → ℕ) (reg_list left : ℕ) (g : ℕ → ℕ) (i j : ℕ)
    → j < i
    → restored g src reg_list left i j ≡ g j
unfolding restored
restored-before src reg_list zero g i j h = refl
restored-before src reg_list (suc left) g i j h =
    restored-before src reg_list left _ (i + 1) j (omega arith) ∙ ground arith

restored-now :
    (src : ℕ → ℕ) (reg_list : ℕ) (g : ℕ → ℕ) (i : ℕ)
    → (if flag reg_list i then update g i (src i) else g) i
      ≡ (if flag reg_list i then src i else g i)
restored-now src reg_list g i = ground arith

restored-at :
    (src : ℕ → ℕ) (reg_list left : ℕ) (g : ℕ → ℕ) (i j : ℕ)
    → i ≤ j
    → j < i + left
    → restored g src reg_list left i j ≡ (if flag reg_list j then src j else g j)
unfolding restored
restored-at src reg_list zero g i j h k = absurd (omega arith)
restored-at src reg_list (suc left) g i j h k = elim (lt_or_ge i j) [
  | inl later ↦ restored-at src reg_list left _ (i + 1) j (omega arith) (omega arith) ∙ ground arith
  | inr here ↦ restored-before src reg_list left _ (i + 1) j (omega arith) ∙ now here
]
  where
    now :
        j ≤ i
        → (if flag reg_list i then update g i (src i) else g) j
          ≡ (if flag reg_list j then src j else g j)
    now here =
        subst
          (λ (t : ℕ).
            (if flag reg_list i then update g i (src i) else g) t
            ≡ (if flag reg_list t then src t else g t))
          {x = i} {y = j} (omega arith) (restored-now src reg_list g i)

next : (i : ℕ) → i + 1 ≡ suc i
next i = omega arith

module _ (src : ℕ → ℕ) (reg_list o top : ℕ) where
  up_loop-restored :
      (left i : ℕ) (m : Machine)
      → i + left ≡ top
      → ((j : ℕ)
          → j < top
          → flag reg_list j ≡ true
          → read_le m.mem (o + 4 * below reg_list j) 4 ≡ src j)
      → o + 4 * below reg_list top ≤ m.mem_size
      → m.mem_size ≤ 2 ^ 29
      → up_loop load reg_list left i (sram + (o + 4 * below reg_list i)) m
        ≡ ok
            (sram + (o + 4 * below reg_list top))
            (record m { regs = restored m.regs src reg_list left i })
  unfolding up_loop restored
  up_loop-restored zero i m e word h k =
      ap (λ (t : ℕ). ok (sram + (o + 4 * below reg_list t)) m) {x = i} {y = top} (omega arith)
  up_loop-restored (suc left) i m e word h k = elim (Bool-cases (flag reg_list i)) [
    | inl on ↦
        let there : below reg_list i + 1 ≤ below reg_list top =
          below-le reg_list i top (omega arith) on in
        let higher : u32 (sram + (o + 4 * below reg_list i) + 4)
            ≡ sram + (o + 4 * below reg_list (i + 1)) =
          omega (arith, there, ap (below reg_list) (next i), below-on reg_list i on) in
        rw
          (
            on,
            load_word (o + 4 * below reg_list i) i m (omega (arith, there)) k,
            higher,
            word i (omega arith) on,
          )
          (up_loop-restored left (i + 1) (with_reg m i (src i)) (omega arith) word h k)
    | inr off ↦
        let level : sram + (o + 4 * below reg_list i) ≡ sram + (o + 4 * below reg_list (i + 1)) =
          omega (arith, ap (below reg_list) (next i), below-off reg_list i off) in
        rw (off, level) (up_loop-restored left (i + 1) m (omega arith) word h k)
  ]

-- The code between a PUSH and its POP: it gives every register but the stack pointer a value of its own.
abbrev pub clobbered : Machine → (ℕ → ℕ) → Machine
clobbered m g = record m { regs = update g sp (m.regs sp) }

restored-value :
    (src : ℕ → ℕ) (reg_list a : ℕ) (g : ℕ → ℕ) (j : ℕ)
    → flag reg_list sp ≡ false
    → j < 16
    → update (restored (update g sp a) src reg_list 16 0) sp (src sp) j
      ≡ (if flag reg_list j || (j == sp) then src j else g j)
restored-value src reg_list a g j no_sp h =
    rw (restored-at src reg_list 16 (update g sp a) 0 j (omega arith) (omega arith)) (ground arith)

bottom : (o reg_list : ℕ) → o ≡ o + 4 * below reg_list 0
unfolding below
bottom o reg_list = omega arith

saved-words :
    (m : Machine) (reg_list o : ℕ)
    → flag reg_list 15 ≡ false
    → ((r : ℕ) → IsU32 (m.regs r))
    → (r : ℕ) → r < 16
    → flag reg_list r ≡ true
    → read_le (saved m.mem m.regs reg_list 15 o) (o + 4 * below reg_list r) 4 ≡ m.regs r
saved-words m reg_list o no_pc regs r h on = elim (lt_or_ge r 15) [
  | inl less ↦ saved-word m.regs reg_list o r on m.mem 15 less ∙ omega (arith, regs r)
  | inr last ↦ absurd (clash (omega arith))
]
  where
    clash : r ≡ 15 → ⊥
    clash e = true≢false (sym on ∙ ap (λ (t : ℕ). flag reg_list t) e ∙ no_pc)

-- Let the stack pointer stand above the words of a list of the registers 0 to 14 without the stack pointer, with room for them in
-- the SRAM. Then a PUSH of the list succeeds and lowers the stack pointer by four bytes for each
-- register, and after code that changes every register but the stack pointer as it likes, a POP of the list succeeds, gives
-- each listed register and the stack pointer their old values, and leaves the others alone.
pub stmdb-ldmia :
    (reg_list o : ℕ) (m : Machine) (g : ℕ → ℕ) (j : ℕ)
    → m.regs sp ≡ sram + (o + 4 * below reg_list 15)
    → o + 4 * below reg_list 15 ≤ m.mem_size
    → m.mem_size ≤ 2 ^ 29
    → flag reg_list 15 ≡ false
    → flag reg_list sp ≡ false
    → ((r : ℕ) → IsU32 (m.regs r))
    → j < 16
    → (m' : Machine) × (instr_stmdb sp reg_list true m ≡ ok tt m')
      × (m'.regs sp ≡ sram + o)
      × (m'' : Machine) × (instr_ldmia sp reg_list true (clobbered m' g) ≡ ok tt m'')
      × (m''.regs j ≡ (if flag reg_list j || (j == sp) then m.regs j else g j))
unfolding instr_stmdb instr_ldmia
stmdb-ldmia reg_list o m g j at room size no_pc no_sp regs h = (
  pushed,
  rw (at, down_loop-saved reg_list 15 o m room size) refl,
  refl,
  popped,
  rw load_all refl,
  value,
)
  where
    pushed : Machine
    pushed = with_reg (record m { mem = saved m.mem m.regs reg_list 15 o }) sp (sram + o)

    popped : Machine
    popped =
        with_reg (record pushed { regs = restored (update g sp (sram + o)) m.regs reg_list 16 0 })
          sp (m.regs sp)

    value : popped.regs j ≡ (if flag reg_list j || (j == sp) then m.regs j else g j)
    value = restored-value m.regs reg_list (sram + o) g j no_sp h

    top : below reg_list 16 ≡ below reg_list 15
    top = below-off reg_list 15 no_pc

    load_all :
        up_loop load reg_list 16 0 (sram + o) (clobbered pushed g)
        ≡ ok
            (m.regs sp)
            (record pushed { regs = restored (update g sp (sram + o)) m.regs reg_list 16 0 })
    load_all =
        ap (λ (t : ℕ). up_loop load reg_list 16 0 (sram + t) (clobbered pushed g)) {x = o}
          {y = o + 4 * below reg_list 0} (bottom o reg_list)
        ∙ up_loop-restored m.regs reg_list o 16 16 0 (clobbered pushed g) refl
            (λ r k on. saved-words m reg_list o no_pc regs r k on) (omega (arith, top)) size
        ∙ ap
            (λ (t : ℕ).
              ok t
                (record pushed { regs = restored (update g sp (sram + o)) m.regs reg_list 16 0 }))
            {x = sram + (o + 4 * below reg_list 16)} {y = m.regs sp} (omega (arith, top))
