-- ===== src/Block/Laws.antt =====
-- Registers saved by a block store to the SRAM and restored by a block load.
use emculator.Prelude.{
  ℕ, zero, suc, ◌+◌, ◌*◌, ◌^◌, ◌≡◌, ◌≤◌, ◌<◌, true, false, if◌then◌else◌, arith, refl, ap, ◌%◌,
  Bool-cases, inl, inr, lt_or_ge, ◌∙◌, sym, subst,
}
use emculator.Word.{sub32, flag}
use emculator.Machine.{Machine, ok, load, store, width_32, with_reg}
use emculator.Memory.Bytes.Laws.{read_le-write_le, write_le-outside}
use emculator.Memory.Bytes.{read_le, write_le}
use emculator.Memory.Ram.{store-ram, load-ram}
use emculator.Block.{transfer_reg, down_loop}

-- The bottom of the SRAM region.
abbrev pub sram : ℕ
sram = 2 ^ 29

store_word :
    (o r : ℕ) (m : Machine)
    → o + 4 ≤ m.mem_size
    → m.mem_size ≤ 2 ^ 29
    → transfer_reg (sram + o) store r width_32 false m
      ≡ ok tt (record m { mem = write_le m.mem o 4 (m.regs r) })
unfolding transfer_reg
store_word o r m h k =
    let at : (sram + o) % 2 ^ 29 ≡ o = omega arith in
    rw (store-ram (sram + o) (m.regs r) false m width_32 (omega arith, omega arith), at) refl

pub load_word :
    (o r : ℕ) (m : Machine)
    → o + 4 ≤ m.mem_size
    → m.mem_size ≤ 2 ^ 29
    → transfer_reg (sram + o) load r width_32 false m ≡ ok tt (with_reg m r (read_le m.mem o 4))
unfolding transfer_reg
load_word o r m h k =
    let at : (sram + o) % 2 ^ 29 ≡ o = omega arith in
    rw (load-ram (sram + o) (m.regs r) false m width_32 (omega arith, omega arith), at) refl

-- How many of the registers 0 to `i - 1` a list has.
unfoldable pub below : ℕ → ℕ → ℕ
below reg_list zero = 0
below reg_list (suc i) = if flag reg_list i then below reg_list i + 1 else below reg_list i

pub below-on :
    (reg_list i : ℕ) → flag reg_list i ≡ true → below reg_list (suc i) ≡ below reg_list i + 1
unfolding below
below-on reg_list i on = rw on refl

pub below-off :
    (reg_list i : ℕ) → flag reg_list i ≡ false → below reg_list (suc i) ≡ below reg_list i
unfolding below
below-off reg_list i off = rw off refl

-- The memory after the registers below `i` have been stored, the lowest of them at offset `o`.
pub saved : (ℕ → ℕ) → (ℕ → ℕ) → ℕ → ℕ → ℕ → (ℕ → ℕ)
saved f regs reg_list zero o = f
saved f regs reg_list (suc i) o =
    saved (if flag reg_list i then write_le f (o + 4 * below reg_list i) 4 (regs i) else f) regs
      reg_list i o

pub down_loop-saved :
    (reg_list i o : ℕ) (m : Machine)
    → o + 4 * below reg_list i ≤ m.mem_size
    → m.mem_size ≤ 2 ^ 29
    → down_loop store reg_list i (sram + (o + 4 * below reg_list i)) m
      ≡ ok (sram + o) (record m { mem = saved m.mem m.regs reg_list i o })
unfolding below saved down_loop
down_loop-saved reg_list zero o m h k =
    ap (λ (t : ℕ). ok (sram + t) m) {x = o + 4 * 0} {y = o} (omega arith)
down_loop-saved reg_list (suc i) o m h k = elim (Bool-cases (flag reg_list i)) [
  | inl on ↦
      let there : o + 4 * below reg_list i + 4 ≤ m.mem_size =
        omega (arith, below-on reg_list i on) in
      let lower : sub32 (sram + (o + 4 * (below reg_list i + 1))) 4
          ≡ sram + (o + 4 * below reg_list i) =
        omega (arith, there) in
      rw (on, lower, store_word (o + 4 * below reg_list i) i m there k)
        (down_loop-saved reg_list i o
          (record m { mem = write_le m.mem (o + 4 * below reg_list i) 4 (m.regs i) })
          (omega (arith, there)) k)
  | inr off ↦ rw off (down_loop-saved reg_list i o m (omega (arith, below-off reg_list i off)) k)
]

-- Storing the registers below `i` leaves the bytes above theirs alone.
saved-above :
    (f regs : ℕ → ℕ) (reg_list i o j : ℕ)
    → o + 4 * below reg_list i ≤ j
    → saved f regs reg_list i o j ≡ f j
unfolding below saved
saved-above f regs reg_list zero o j h = refl
saved-above f regs reg_list (suc i) o j h = elim (Bool-cases (flag reg_list i)) [
  | inl on ↦ rw on (
      saved-above (write_le f (o + 4 * below reg_list i) 4 (regs i)) regs reg_list i o j
        (omega (arith, below-on reg_list i on))
      ∙ write_le-outside f (o + 4 * below reg_list i) 4 (regs i) j
          (inr (omega (arith, below-on reg_list i on))))
  | inr off ↦ rw off (saved-above f regs reg_list i o j (omega (arith, below-off reg_list i off)))
]

below-step : (reg_list i : ℕ) → below reg_list i ≤ below reg_list (suc i)
unfolding below
below-step reg_list i = ground arith

pub below-le :
    (reg_list j i : ℕ) → j < i → flag reg_list j ≡ true → below reg_list j + 1 ≤ below reg_list i
unfolding below
below-le reg_list j zero h on = absurd (omega arith)
below-le reg_list j (suc i) h on = elim (lt_or_ge j i) [
  | inl less ↦ omega (arith, below-le reg_list j i less on, below-step reg_list i)
  | inr last ↦
      let same : j ≡ i = omega arith in
      rw same (omega (arith, below-on reg_list i (sym (ap (λ (t : ℕ). flag reg_list t) same) ∙ on)))
]

read_le-same :
    (f g : ℕ → ℕ) (o n : ℕ) → ((j : ℕ) → o ≤ j → f j ≡ g j) → read_le f o n ≡ read_le g o n
unfolding read_le
read_le-same f g o zero h = refl
read_le-same f g o (suc n) h =
    rw (h o (omega arith), read_le-same f g (o + 1) n (λ j k. h j (omega arith))) refl

saved-last :
    (f regs : ℕ → ℕ) (reg_list o i : ℕ)
    → flag reg_list i ≡ true
    → read_le (saved f regs reg_list (suc i) o) (o + 4 * below reg_list i) 4 ≡ regs i % 256 ^ 4
unfolding saved
saved-last f regs reg_list o i on =
    let f' : ℕ → ℕ = write_le f (o + 4 * below reg_list i) 4 (regs i) in
    rw on (
      read_le-same (saved f' regs reg_list i o) f' (o + 4 * below reg_list i) 4
        (λ j. saved-above f' regs reg_list i o j)
      ∙ read_le-write_le f (o + 4 * below reg_list i) 4 (regs i))

-- A register of the list is in its word.
pub saved-word :
    (regs : ℕ → ℕ) (reg_list o j : ℕ)
    → flag reg_list j ≡ true
    → (f : ℕ → ℕ) (i : ℕ) → j < i
    → read_le (saved f regs reg_list i o) (o + 4 * below reg_list j) 4 ≡ regs j % 256 ^ 4
unfolding saved
saved-word regs reg_list o j on f zero h = absurd (omega arith)
saved-word regs reg_list o j on f (suc i) h = elim (lt_or_ge j i) [
  | inl less ↦
      saved-word regs reg_list o j on
        (if flag reg_list i then write_le f (o + 4 * below reg_list i) 4 (regs i) else f) i less
  | inr last ↦
      let same : i ≡ j = omega arith in
      subst
        (λ (t : ℕ).
          read_le (saved f regs reg_list (suc t) o) (o + 4 * below reg_list j) 4 ≡ regs j % 256 ^ 4)
        (sym same) (saved-last f regs reg_list o j on)
]
