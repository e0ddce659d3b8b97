-- ===== src/Policy.antt =====
-- backend/services/watch_policy.py: how many availability checks a watch is granted.
use native.Mathlib.Nat.{lt-div-mul-add, div-mul-le_self}
use dibs_reservation_sniper.Prelude.{
  ℕ, zero, suc, ◌+◌, ◌-◌, ◌*◌, ◌≤◌, ◌<◌, ◌≡◌, ◌↔◌, Bool, true, not, arith, max, min, ltb, ◌==◌,
  if◌then◌else◌, String, Option, some, none,
}
use dibs_reservation_sniper.Model.{ceil_div}
use dibs_reservation_sniper.Schedule.{PollSchedule, earliest_delay}

pub data PolicyLimit : Type 0 where
  calendar safety_ceiling : PolicyLimit

pub record AvailabilityPolicy : Type 0 where
  pub required_attempts : ℕ
  pub effective_attempts : ℕ
  pub supports_deadline : Bool
  pub limiting_reason : PolicyLimit

unfoldable pub is_attempt_limited : AvailabilityPolicy → Bool
is_attempt_limited p = not p.supports_deadline

unfoldable pub monitoring_policy_header : AvailabilityPolicy → String
monitoring_policy_header p = if p.supports_deadline then "deadline" else "attempt-limited"

-- The schedule counts microseconds, so there is nothing left to round.
unfoldable pub earliest_delay_microseconds : PollSchedule → ℕ
earliest_delay_microseconds s = max 1 (earliest_delay s)

-- `none` is the `ValueError` for a ceiling below one.
unfoldable pub derive : PollSchedule → ℕ → ℕ → ℕ → Option AvailabilityPolicy
unfolding earliest_delay_microseconds ceil_div
derive s now expires_at ceiling =
    let required = ceil_div (expires_at - now) (earliest_delay_microseconds s) + 1 in
    let effective = min required ceiling in
    if ltb ceiling 1
    then none
    else some (record {
      required_attempts = required;
      effective_attempts = effective;
      supports_deadline = effective == required;
      limiting_reason = if effective == required then calendar else PolicyLimit.safety_ceiling;
    })

earliest-pos : (s : PollSchedule) → 1 ≤ earliest_delay_microseconds s
unfolding earliest_delay_microseconds
earliest-pos s = omega arith

ceil_div_bounds : (a b : ℕ) → 1 ≤ b → (a ≤ ceil_div a b * b) × (ceil_div a b * b < a + b)
unfolding ceil_div
ceil_div_bounds a b h =
    omega (arith, lt-div-mul-add {a = a + (b - 1)} {b = b} h, div-mul-le_self (a + (b - 1)) b)

-- A derived policy with a ceiling of at least one grants at least one check and never more than the
-- ceiling or than required; it says that it reaches the deadline exactly when the ceiling covers
-- the required checks; and it names the ceiling as its limit exactly when it does not.
pub derive_grant :
    (s : PollSchedule) (now expires_at ceiling : ℕ) {p : AvailabilityPolicy}
    → derive s now expires_at ceiling ≡ some p
    → (1 ≤ p.effective_attempts)
      × (p.effective_attempts ≤ ceiling)
      × (p.effective_attempts ≤ p.required_attempts)
      × ((p.supports_deadline ≡ true) ↔ (p.required_attempts ≤ ceiling))
      × ((p.limiting_reason ≡ PolicyLimit.safety_ceiling) ↔ (ceiling < p.required_attempts))
unfolding derive
derive_grant s now expires_at ceiling e = ground arith

just_enough :
    (now expires_at step q : ℕ)
    → expires_at - now ≤ q * step
    → q * step < expires_at - now + step
    → (expires_at ≤ now + (q + 1 - 1) * step)
      × (now < expires_at → now + (q + 1 - 2) * step < expires_at)
just_enough now expires_at step zero h k = omega arith
just_enough now expires_at step (suc q) h k =
    let same : suc q + 1 - 1 ≡ suc q = omega arith in
    let fewer : suc q + 1 - 2 ≡ q = omega arith in rw (same, fewer) (omega arith)

-- The required checks are just enough: one immediately and one more for each earliest delay reach
-- the deadline, and with one interval fewer they would not, unless the deadline has passed.
pub derive_required :
    (s : PollSchedule) (now expires_at ceiling : ℕ) {p : AvailabilityPolicy}
    → derive s now expires_at ceiling ≡ some p
    → (expires_at ≤ now + (p.required_attempts - 1) * earliest_delay_microseconds s)
      × (now < expires_at
          → now + (p.required_attempts - 2) * earliest_delay_microseconds s < expires_at)
unfolding derive
derive_required s now expires_at ceiling {p} e =
    let step = earliest_delay_microseconds s in
    let bounds = ceil_div_bounds (expires_at - now) step (earliest-pos s) in
    let required : p.required_attempts ≡ ceil_div (expires_at - now) step + 1 = ground arith in
    rw required (just_enough now expires_at step _ bounds.0 bounds.1)

-- Deriving once more against the granted budget gives the same policy, which is what
-- `WatchService.describe_policy` relies on.
pub derive_again :
    (s : PollSchedule) (now expires_at ceiling : ℕ) {p : AvailabilityPolicy}
    → derive s now expires_at ceiling ≡ some p
    → derive s now expires_at p.effective_attempts ≡ some p
unfolding derive
derive_again s now expires_at ceiling e = ground arith
