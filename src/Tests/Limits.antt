-- ===== src/Tests/Limits.antt =====
-- The theorems on the throttle at a quota of two.
use dibs_reservation_sniper.Prelude.{◌≤◌, ◌≡◌, ◌↔◌, false, List, [], ◌∷◌, arith, length, or_default}
use dibs_reservation_sniper.Dict.{get, put}
use dibs_reservation_sniper.Throttle.{
  Throttle, max_tracked_keys, live, drop_over, check, consume, record_event,
}
use dibs_reservation_sniper.Throttle.Quota.{IsInQuota}
use dibs_reservation_sniper.Throttle.Runs.{
  ThrottleOp, consuming, releasing, step, run, run-IsInQuota, consume_refused,
}
use dibs_reservation_sniper.Throttle.Tracked.{run_tracked}

abbrev unused : Throttle
unused = record { max_events = 2; window = 60; failures = [] }

-- Three requests in one window, and a refund of the first.
abbrev requests : List ThrottleOp
requests =
    consuming "k" "t1" 10 10 11
    ∷ consuming "k" "t2" 20 20 21
    ∷ consuming "k" "t3" 30 30 31
    ∷ releasing "k" "t1" 40
    ∷ []

run-IsInQuota_example : IsInQuota 2 (run unused requests)
run-IsInQuota_example = run-IsInQuota 2 60 requests (omega arith)

abbrev full : Throttle
full = run unused (consuming "k" "t1" 10 10 11 ∷ consuming "k" "t2" 20 20 21 ∷ [])

consume_refused_example :
    ((consume full "k" "t3" 30 30 31).1 ≡ false ↔ (
      full.max_events ≤ length (drop_over full.window 30 (or_default (get full.failures "k") []))))
    × ((consume full "k" "t3" 30 30 31).1 ≡ false
        → (consume full "k" "t3" 30 30 31).0 ≡ (check full "k" 30).0)
unfolding run step consume check live record_event get put drop_over
consume_refused_example = consume_refused full "k" "t3" 30 30 31 (omega arith)

run_tracked_example : length (run unused requests).failures ≤ max_tracked_keys
run_tracked_example = run_tracked 2 60 requests
