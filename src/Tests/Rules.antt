-- ===== src/Tests/Rules.antt =====
-- The theorems on pace, policy and backoff at concrete numbers.
use dibs_reservation_sniper.Prelude.{
  ℕ, ◌+◌, ◌-◌, ◌*◌, ◌^◌, ◌≤◌, ◌<◌, ◌≡◌, ◌↔◌, refl, true, false, none, some, arith, min, max,
}
use dibs_reservation_sniper.Schedule.{
  PollSchedule, post_init, min_delay, next_delay, earliest_delay, latest_delay, next_delay_bounds,
}
use dibs_reservation_sniper.Policy.{
  AvailabilityPolicy, PolicyLimit, derive, derive_grant, derive_required,
  earliest_delay_microseconds,
}
use dibs_reservation_sniper.Backoff.{
  exponent_limit, backoff_base, outage_delay, saturating_outages, exponent_limit_least,
  backoff_base_capped, outage_delay_bounds, saturating_outages_base,
}

abbrev some_schedule : PollSchedule
some_schedule = record { interval = 60000000; jitter = 10000000 }

abbrev some_policy : AvailabilityPolicy
some_policy = record {
  required_attempts = 19;
  effective_attempts = 5;
  supports_deadline = false;
  limiting_reason = PolicyLimit.safety_ceiling;
}

derive_grant_example :
    (1 ≤ 5)
    × (5 ≤ 5)
    × (5 ≤ 19)
    × ((false ≡ true) ↔ (19 ≤ 5))
    × ((PolicyLimit.safety_ceiling ≡ PolicyLimit.safety_ceiling) ↔ (5 < 19))
unfolding derive earliest_delay
derive_grant_example = derive_grant some_schedule 0 900000000 5 {p = some_policy} refl

derive_required_example :
    (900000000 ≤ 0 + (19 - 1) * earliest_delay_microseconds some_schedule)
    × (0 < 900000000 → 0 + (19 - 2) * earliest_delay_microseconds some_schedule < 900000000)
unfolding derive earliest_delay
derive_required_example = derive_required some_schedule 0 900000000 5 {p = some_policy} refl

exponent_limit_least_example :
    (600 ≤ 60 * 2 ^ exponent_limit 60 600)
    × ((i : ℕ) → i < exponent_limit 60 600 → 60 * 2 ^ i < 600)
exponent_limit_least_example = exponent_limit_least 60 600 (omega arith)

backoff_base_capped_example :
    backoff_base some_schedule 600000000 3 ≡ min (60000000 * 2 ^ (3 - 1)) 600000000
backoff_base_capped_example = backoff_base_capped some_schedule 600000000 3 (omega arith)

outage_delay_bounds_example :
    ((outage_delay some_schedule 600000000 3 900000000 5 ≡ none) ↔ (900000000 < min_delay))
    × ((d : ℕ)
        → outage_delay some_schedule 600000000 3 900000000 5 ≡ some d
        → (min_delay ≤ d) × (d ≤ 600000000) × (d ≤ 900000000))
outage_delay_bounds_example =
    outage_delay_bounds some_schedule 600000000 3 900000000 5 (omega arith)

saturating_outages_base_example :
    backoff_base some_schedule 600000000 (saturating_outages some_schedule 600000000 1000)
    ≡ backoff_base some_schedule 600000000 1000
saturating_outages_base_example = saturating_outages_base some_schedule 600000000 1000

next_delay_bounds_example :
    (min_delay ≤ next_delay some_schedule 7)
    × (earliest_delay some_schedule ≤ next_delay some_schedule 7)
    × (next_delay some_schedule 7 ≤ max min_delay (latest_delay some_schedule))
unfolding post_init
next_delay_bounds_example = next_delay_bounds some_schedule 7 refl (omega arith)
