-- ===== src/Schedule.antt =====
-- backend/workers/scheduler.py: the pace of a watch's polls. Seconds are counted in microseconds,
-- and a jitter drawn from [-jitter, jitter] is a draw from [0, 2 * jitter] less the jitter.
use dibs_reservation_sniper.Prelude.{ℕ, ◌+◌, ◌-◌, ◌*◌, ◌≤◌, ◌≡◌, Bool, true, ◌&&◌, arith, max, ltb}

-- MIN_DELAY_SECONDS
abbrev pub min_delay : ℕ
min_delay = 1000000

pub record PollSchedule : Type 0 where
  pub interval : ℕ
  pub jitter : ℕ

-- `__post_init__`: `false` is one of its `ValueError`s. A jitter of ℕ cannot be negative.
unfoldable pub post_init : PollSchedule → Bool
post_init s = ltb 0 s.interval && ltb s.jitter s.interval

unfoldable pub next_delay : PollSchedule → ℕ → ℕ
next_delay s draw = max min_delay (s.interval + draw - s.jitter)

unfoldable pub earliest_delay : PollSchedule → ℕ
earliest_delay s = max min_delay (s.interval - s.jitter)

unfoldable pub latest_delay : PollSchedule → ℕ
latest_delay s = s.interval + s.jitter

-- For an accepted schedule every delay is at least the floor and the earliest delay, and no later
-- than the latest one or the floor, whichever is larger.
pub next_delay_bounds :
    (s : PollSchedule) (draw : ℕ)
    → post_init s ≡ true
    → draw ≤ 2 * s.jitter
    → (min_delay ≤ next_delay s draw)
      × (earliest_delay s ≤ next_delay s draw)
      × (next_delay s draw ≤ max min_delay (latest_delay s))
unfolding post_init next_delay earliest_delay latest_delay
next_delay_bounds s draw ok h = ground arith
