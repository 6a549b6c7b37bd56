-- ===== src/Scheduler/Cron/Rounds.antt =====
-- The loop over the values of a step ends within its fuel.
use cyntr.Common.{ℕ, zero, suc, ◌+◌, ◌≤◌, ◌≡◌, refl, [], ◌∷◌, ap, leb, arith, Bool-cases, inl, inr}
use cyntr.Scheduler.Cron.{step_up}
use cyntr.Common.{sym}

step_up-ended : (fuel i end step : ℕ) → end + 1 ≤ i → step_up fuel i end step ≡ []
unfolding step_up
step_up-ended zero i end step h = refl
step_up-ended (suc fuel) i end step h = ground (arith, h)

-- Any two amounts of fuel that have a round for each value from i up to the end give the same, where the
-- step is not 0.
step_up-enough :
    (fuel more i end step : ℕ)
    → 1 ≤ step
    → end + 1 ≤ i + fuel
    → end + 1 ≤ i + more
    → step_up fuel i end step ≡ step_up more i end step
unfolding step_up
step_up-enough zero more i end step p h k = sym (step_up-ended more i end step (omega (arith, h)))
step_up-enough (suc fuel) zero i end step p h k =
    step_up-ended (suc fuel) i end step (omega (arith, k))
step_up-enough (suc fuel) (suc more) i end step p h k = elim (Bool-cases (leb i end)) [
  | inl y ↦ rw y (
      ap (λ vs. i ∷ vs)
        (step_up-enough fuel more (i + step) end step p (omega (arith, h, p))
          (omega (arith, k, p))))
  | inr n ↦ rw n refl
]
