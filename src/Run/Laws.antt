-- ===== src/Run/Laws.antt =====
-- How a run ends.
use native.Mathlib.Nat.{suc-add}
use emculator.Prelude.{
  ℕ, zero, suc, ◌+◌, ◌≡◌, Bool, if◌then◌else◌, arith, refl, true, ◌⊎◌, false, ap, ◌∙◌, inr,
}
use emculator.Machine.{Machine, err_halt}
use emculator.Control.{machine_halt}
use emculator.Run.{Outcome, running, stopped, round, machine_run}

-- The run is over.
abbrev pub IsOver : Outcome → Type 0
IsOver (running m) = ⊥
IsOver _ = Unit

-- What the loop makes of a round.
abbrev resume : (ℕ → Bool) → ℕ → ℕ → Outcome → Outcome
resume halts i fuel (running m) = machine_run halts i fuel m
resume halts i fuel o = o

machine_run-suc :
    (halts : ℕ → Bool) (i fuel : ℕ) (m : Machine)
    → machine_run halts i (suc fuel) m
      ≡ resume halts (i + 1) fuel (round (if halts i then machine_halt m else m))
unfolding machine_run
machine_run-suc halts i fuel m = ground arith

resume-fuel :
    (halts : ℕ → Bool) (i fuel more : ℕ) (o : Outcome)
    → ((m : Machine)
        → IsOver (machine_run halts i fuel m)
        → machine_run halts i (fuel + more) m ≡ machine_run halts i fuel m)
    → IsOver (resume halts i fuel o)
    → resume halts i (fuel + more) o ≡ resume halts i fuel o
resume-fuel halts i fuel more (running m) ih over = ih m over
resume-fuel halts i fuel more _ ih over = refl

-- More fuel changes nothing about a run that is over.
pub machine_run-fuel :
    (halts : ℕ → Bool) (i fuel more : ℕ) (m : Machine)
    → IsOver (machine_run halts i fuel m)
    → machine_run halts i (fuel + more) m ≡ machine_run halts i fuel m
unfolding machine_run
machine_run-fuel halts i zero more m over = absurd over
machine_run-fuel halts i (suc fuel) more m over =
    rw (suc-add, machine_run-suc)
      (resume-fuel halts (i + 1) fuel more (round (if halts i then machine_halt m else m))
        (λ m'. machine_run-fuel halts (i + 1) fuel more m') (rw machine_run-suc at over))

-- A request to halt, whether made before the run or from outside before round `i`, ends the run there
-- with `ERR_HALT`; it is withdrawn, and no instruction has run.
pub machine_run-halt :
    (halts : ℕ → Bool) (i fuel : ℕ) (m : Machine)
    → (m.halt ≡ true) ⊎ (halts i ≡ true)
    → machine_run halts i (suc fuel) m ≡ stopped err_halt (record m { halt = false })
unfolding machine_run round machine_halt
machine_run-halt halts i fuel m h = ground arith

resume-IsOver :
    (halts : ℕ → Bool) (i fuel : ℕ) (o : Outcome)
    → ((m : Machine) → IsOver (machine_run halts i fuel m))
    → IsOver (resume halts i fuel o)
resume-IsOver halts i fuel (running m) ih = ih m
resume-IsOver halts i fuel _ ih = tt

halt_ends :
    (halts : ℕ → Bool) (i k : ℕ) (m : Machine)
    → halts (i + k) ≡ true
    → IsOver (machine_run halts i (suc k) m)
halt_ends halts i zero m h =
    let now : halts i ≡ true = ap halts (omega arith) ∙ h in
    rw (machine_run-halt halts i 0 m (inr now)) tt
halt_ends halts i (suc k) m h = rw machine_run-suc (
    resume-IsOver halts (i + 1) (suc k) (round (if halts i then machine_halt m else m)) (λ m'.
      halt_ends halts (i + 1) k m' (ap halts {x = i + 1 + k} {y = i + suc k} (omega arith) ∙ h)))

-- A run into which a request to halt comes before round `k` is over after at most that round, whatever
-- the program does: `k + 1` rounds of fuel are enough, and with more the outcome is the same.
pub machine_run-ends :
    (halts : ℕ → Bool) (k more : ℕ) (m : Machine)
    → halts k ≡ true
    → IsOver (machine_run halts 0 (suc k) m)
      × (machine_run halts 0 (suc k + more) m ≡ machine_run halts 0 (suc k) m)
machine_run-ends halts k more m h =
    let over = halt_ends halts 0 k m (ap halts {x = 0 + k} {y = k} (omega arith) ∙ h) in
    (over, machine_run-fuel halts 0 (suc k) more m over)
