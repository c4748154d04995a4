-- ===== src/Backtrace/Laws.antt =====
-- The recorded backtrace is a stack: further down the record the stack pointer is higher.
use emculator.Prelude.{
  ◌⊎◌, lt_or_ge, leb→le, subst, ℕ, zero, suc, ◌+◌, ◌≡◌, ◌<◌, ◌≤◌, arith, ◌-◌, Bool-cases, leb, inl,
  inr,
}
use emculator.Machine.{backtrace_len, Machine, Item}
use emculator.Backtrace.{trim, push_item, leb}

-- The entries from 1 up to `depth` have falling stack pointers.
abbrev pub Falls : (ℕ → Item) → ℕ → Type 0
Falls backtrace depth = (i j : ℕ) → 0 < i → i < j → j ≤ depth → (backtrace j).sp < (backtrace i).sp

pub trim-le : (backtrace : ℕ → Item) (sp d : ℕ) → trim backtrace sp d ≤ d
unfolding trim
trim-le backtrace sp zero = omega arith
trim-le backtrace sp (suc d) = ground (arith, trim-le backtrace sp d)

-- What the loop stops above.
pub trim-above :
    (backtrace : ℕ → Item) (sp d : ℕ)
    → 0 < trim backtrace sp d
    → sp < (backtrace (trim backtrace sp d - 1)).sp
unfolding trim
trim-above backtrace sp zero h = elim h [ ]
trim-above backtrace sp (suc d) h = elim (Bool-cases (leb (backtrace d).sp sp)) [
  | inl gone ↦ rw gone (trim-above backtrace sp d (rw gone at h))
  | inr kept ↦ rw kept (let e : suc d - 1 ≡ d = omega arith in rw e (ground arith))
]

-- What the loop drops.
trim-dropped :
    (backtrace : ℕ → Item) (sp d j : ℕ) → trim backtrace sp d ≤ j → j < d → (backtrace j).sp ≤ sp
unfolding trim
trim-dropped backtrace sp zero j h k = absurd (omega arith)
trim-dropped backtrace sp (suc d) j h k = elim (Bool-cases (leb (backtrace d).sp sp)) [
  | inl gone ↦ elim (lt_or_ge j d) [
    | inl less ↦ trim-dropped backtrace sp d j (rw gone at h) less
    | inr last ↦
        let same : d ≡ j = omega arith in
        subst (λ (t : ℕ). (backtrace t).sp ≤ sp) same (leb→le (backtrace d).sp sp gone)
  ]
  | inr kept ↦ absurd (stays (rw kept at h))
]
  where
    stays : suc d ≤ j → ⊥
    stays above = absurd (omega arith)

-- What a call makes of the entry `j` of the record: it is kept, and then it has a higher stack pointer
-- than the call, or it is dropped, and then it has not.
abbrev pub KeptOrDropped : Machine → Machine → ℕ → ℕ → Type 0
KeptOrDropped m m' sp j =
    ((j < m'.call_depth) × (m'.backtrace j ≡ m.backtrace j) × (sp < (m.backtrace j).sp))
    ⊎ ((m'.call_depth ≤ j) × ((m.backtrace j).sp ≤ sp))

-- The record stays a stack.
push_item-Falls :
    (pc sp : ℕ) (m : Machine)
    → Falls m.backtrace m.call_depth
    → m.call_depth + 1 < backtrace_len
    → let m' = push_item (m.call_depth + 1) pc sp m in Falls m'.backtrace m'.call_depth
unfolding push_item
push_item-Falls pc sp m f room i j lo lt le = ground (
  arith,
  trim-le m.backtrace sp (m.call_depth + 1),
  trim-above m.backtrace sp (m.call_depth + 1),
  f i j,
  f i (trim m.backtrace sp (m.call_depth + 1) - 1),
)

push_item-top :
    (pc sp : ℕ) (m : Machine)
    → m.call_depth + 1 < backtrace_len
    → let m' = push_item (m.call_depth + 1) pc sp m in
      m'.backtrace m'.call_depth ≡ (record { pc = pc; sp = sp })
unfolding push_item
push_item-top pc sp m room = ground arith

push_item-entry :
    (pc sp : ℕ) (m : Machine) (j : ℕ)
    → Falls m.backtrace m.call_depth
    → m.call_depth + 1 < backtrace_len
    → 0 < j
    → j ≤ m.call_depth
    → KeptOrDropped m (push_item (m.call_depth + 1) pc sp m) sp j
unfolding push_item
push_item-entry pc sp m j f room lo hi = ground (
  arith,
  trim-le m.backtrace sp (m.call_depth + 1),
  trim-above m.backtrace sp (m.call_depth + 1),
  trim-dropped m.backtrace sp (m.call_depth + 1) j,
  f j (trim m.backtrace sp (m.call_depth + 1) - 1),
)

-- While the record has room, a call leaves a stack of calls a stack, puts itself with its address and
-- its stack pointer at the new depth, keeps exactly the entries from 1 on whose stack pointer is higher
-- than its own, and drops the others.
pub push_item-stack :
    (pc sp : ℕ) (m : Machine) (j : ℕ)
    → Falls m.backtrace m.call_depth
    → m.call_depth + 1 < backtrace_len
    → 0 < j
    → j ≤ m.call_depth
    → let m' = push_item (m.call_depth + 1) pc sp m in
      Falls m'.backtrace m'.call_depth
      × (m'.backtrace m'.call_depth ≡ (record { pc = pc; sp = sp }))
      × KeptOrDropped m m' sp j
push_item-stack pc sp m j f room lo hi = (
  push_item-Falls pc sp m f room,
  push_item-top pc sp m room,
  push_item-entry pc sp m j f room lo hi,
)
