-- ===== src/Quota/Cycle.antt =====
-- AlignedCycleStartUTC of internal/models/quota.go: the 7-day cycle of the weekly Token bucket.
use shimiaocheng_llm.Prelude.{ℕ, ◌+◌, ◌-◌, ◌*◌, ◌/◌, ◌≤◌, ◌<◌, ◌≡◌, refl, false, arith}
use shimiaocheng_llm.GoTime.{Time, add, before, since, week, max_duration}
use shimiaocheng_llm.Quota.{aligned_cycle_start}

-- The cycle that starts `k` weeks after the anchor holds the instant.
abbrev pub InCycle : Time → ℕ → Time → Type 0
InCycle anchor k now =
    (anchor.nanos + k * week ≤ now.nanos) × (now.nanos < anchor.nanos + (k + 1) * week)

-- An instant at or after the anchor, less than the largest duration later.
abbrev pub IsReached : Time → Time → Type 0
IsReached anchor now = (anchor.nanos ≤ now.nanos) × (now.nanos - anchor.nanos ≤ max_duration)

weeks_between : Time → Time → ℕ
weeks_between anchor now = since now anchor / week

not-before : (anchor now : Time) → anchor.nanos ≤ now.nanos → before now anchor ≡ false
not-before anchor now h = ground arith

-- From the anchor on, the computed start is a whole number of weeks after the anchor, the instant
-- lies in the week that it begins, and no product of the computation exceeds a duration.
pub aligned_cycle_start-InCycle :
    (anchor now : Time)
    → IsReached anchor now
    → (k : ℕ) × InCycle anchor k now
      × (aligned_cycle_start anchor now ≡ add anchor (k * week))
      × (k * week ≤ max_duration)
unfolding aligned_cycle_start
aligned_cycle_start-InCycle anchor now h = (
  since now anchor / week,
  (omega arith, omega arith),
  rw (not-before anchor now h.0) refl,
  omega arith,
)

-- The start is the only one: where the instant lies in the week that begins `k` weeks after the
-- anchor, that is the computed start. So it is the same throughout a cycle, and moves by exactly
-- one week with each cycle.
pub aligned_cycle_start_unique :
    (anchor now : Time) (k : ℕ)
    → IsReached anchor now
    → InCycle anchor k now
    → aligned_cycle_start anchor now ≡ add anchor (k * week)
unfolding aligned_cycle_start
aligned_cycle_start_unique anchor now k h c =
    let e : since now anchor / week ≡ k = omega arith in rw (not-before anchor now h.0) (rw e refl)

-- An anchor that is still to come starts the cycle itself.
pub aligned_cycle_start-future :
    (anchor now : Time) → now.nanos < anchor.nanos → aligned_cycle_start anchor now ≡ anchor
unfolding aligned_cycle_start
aligned_cycle_start-future anchor now h = ground arith
