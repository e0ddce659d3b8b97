-- ===== src/Backoff.antt =====
-- The outage backoff of backend/services/watch_service.py: capped doubling, jitter, and a clip to
-- the watch's remaining lifetime. Delays are microseconds; a draw is as in `Schedule`.
use native.Mathlib.Nat.{pow-suc, pow-le-pow_right}
use dibs_reservation_sniper.Prelude.{
  ℕ, zero, suc, ◌+◌, ◌-◌, ◌*◌, ◌^◌, ◌≤◌, ◌<◌, ◌≡◌, ◌↔◌, inl, inr, refl, true, Option, some, none,
  arith, max, min, leb, ltb, if◌then◌else◌, Bool-cases,
}
use dibs_reservation_sniper.Schedule.{PollSchedule, min_delay}

-- The loop of `_exponent_limit`, which ends when the value reaches the maximum. Each round doubles
-- a positive value, so `maximum` rounds are enough.
exponent_loop : ℕ → ℕ → ℕ → ℕ → ℕ
exponent_loop zero maximum value limit = limit
exponent_loop (suc fuel) maximum value limit =
    let more = exponent_loop fuel maximum (value * 2) (limit + 1) in
    if ltb value maximum then more else limit

unfoldable pub exponent_limit : ℕ → ℕ → ℕ
unfolding exponent_loop
exponent_limit interval maximum = exponent_loop maximum maximum interval 0

unfoldable pub saturating_outages : PollSchedule → ℕ → ℕ → ℕ
saturating_outages s maximum value = min value (exponent_limit s.interval maximum + 1)

-- The delay before jitter: `interval * 2 ** (outages - 1)` up to the exponent limit.
unfoldable pub backoff_base : PollSchedule → ℕ → ℕ → ℕ
backoff_base s maximum outages =
    if leb (exponent_limit s.interval maximum) (outages - 1)
    then maximum
    else s.interval * 2 ^ (outages - 1)

-- `remaining` is the lifetime that is left, zero if the deadline has passed. `none` stands for the
-- `None` that makes the caller expire the watch.
unfoldable pub outage_delay : PollSchedule → ℕ → ℕ → ℕ → ℕ → Option ℕ
outage_delay s maximum outages remaining draw =
    let jittered = min (max (backoff_base s maximum outages + draw - s.jitter) min_delay) maximum in
    if ltb remaining min_delay then none else some (min jittered remaining)

double-pow : (v i : ℕ) → v * 2 ^ suc i ≡ v * 2 * 2 ^ i
double-pow v i = rw pow-suc (omega arith)

-- The loop returns the number of doublings after which the value reaches the maximum, and no fewer.
exponent_loop_lem :
    (fuel maximum value limit : ℕ)
    → 1 ≤ value
    → maximum ≤ value + fuel
    → (k : ℕ) × (exponent_loop fuel maximum value limit ≡ limit + k)
      × (maximum ≤ value * 2 ^ k)
      × ((i : ℕ) → i < k → value * 2 ^ i < maximum)
unfolding exponent_loop
exponent_loop_lem zero maximum value limit p h = (0, omega arith, omega arith, λ i lt. omega arith)
exponent_loop_lem (suc fuel) maximum value limit p h = elim (Bool-cases (ltb value maximum)) [
  | inl e ↦
      let (k, r, enough, least) =
        exponent_loop_lem fuel maximum (value * 2) (limit + 1) (omega arith) (omega arith) in
      (
        suc k,
        rw e (omega (arith, r)),
        omega (arith, double-pow value k, enough),
        below value maximum k (ground arith) least,
      )
  | inr e ↦ (0, rw e (omega arith), ground arith, λ i lt. omega arith)
]
  where
    below :
        (v m k : ℕ)
        → v < m
        → ((i : ℕ) → i < k → v * 2 * 2 ^ i < m)
        → (i : ℕ) → i < suc k
        → v * 2 ^ i < m
    below v m k p h zero lt = omega arith
    below v m k p h (suc i) lt = omega (arith, double-pow v i, h i (omega arith))

-- For a positive interval the exponent limit is the least number of doublings that bring it to the
-- maximum; so the loop's rounds were enough.
pub exponent_limit_least :
    (interval maximum : ℕ)
    → 1 ≤ interval
    → (maximum ≤ interval * 2 ^ exponent_limit interval maximum)
      × ((i : ℕ) → i < exponent_limit interval maximum → interval * 2 ^ i < maximum)
unfolding exponent_limit
exponent_limit_least interval maximum p =
    let (k, r, enough, least) = exponent_loop_lem maximum maximum interval 0 p (omega arith) in
    let same : exponent_loop maximum maximum interval 0 ≡ k = omega (arith, r) in
    rw same (enough, least)

-- The delay before jitter is the doubled interval wherever that stays below the maximum, and the
-- maximum from there on: it is the smaller of the two, whatever the count of outages.
pub backoff_base_capped :
    (s : PollSchedule) (maximum outages : ℕ)
    → 1 ≤ s.interval
    → backoff_base s maximum outages ≡ min (s.interval * 2 ^ (outages - 1)) maximum
unfolding backoff_base
backoff_base_capped s maximum outages p =
    let (enough, least) = exponent_limit_least s.interval maximum p in
    elim (Bool-cases (leb (exponent_limit s.interval maximum) (outages - 1))) [
      | inl e ↦
          let more : 2 ^ exponent_limit s.interval maximum ≤ 2 ^ (outages - 1) =
            pow-le-pow_right (omega arith) (ground arith) in
          let grown : s.interval * 2 ^ exponent_limit s.interval maximum
              ≤ s.interval * 2 ^ (outages - 1) =
            grind arith in
          rw e (omega arith)
      | inr e ↦ rw e (omega (arith, least (outages - 1) (ground arith)))
    ]

-- With a cap of at least the floor: there is no delay exactly when less than the floor remains, and
-- a delay is at least the floor, at most the cap, and never runs past the deadline.
pub outage_delay_bounds :
    (s : PollSchedule) (maximum outages remaining draw : ℕ)
    → min_delay ≤ maximum
    → ((outage_delay s maximum outages remaining draw ≡ none) ↔ (remaining < min_delay))
      × ((d : ℕ)
          → outage_delay s maximum outages remaining draw ≡ some d
          → (min_delay ≤ d) × (d ≤ maximum) × (d ≤ remaining))
unfolding outage_delay
outage_delay_bounds s maximum outages remaining draw h = (ground arith, λ d e. ground arith)

-- Counting outages past the saturation point changes no delay, so the stored counter may saturate.
pub saturating_outages_base :
    (s : PollSchedule) (maximum outages : ℕ)
    → backoff_base s maximum (saturating_outages s maximum outages) ≡ backoff_base s maximum outages
unfolding backoff_base saturating_outages
saturating_outages_base s maximum outages =
    let limit = exponent_limit s.interval maximum in
    elim (Bool-cases (leb outages limit)) [
      | inl e ↦ let same : min outages (limit + 1) ≡ outages = ground arith in rw same refl
      | inr e ↦
          let at_limit : leb limit (min outages (limit + 1) - 1) ≡ true = ground arith in
          let past : leb limit (outages - 1) ≡ true = ground arith in rw (at_limit, past) refl
    ]
