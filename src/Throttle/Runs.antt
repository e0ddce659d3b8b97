-- ===== src/Throttle/Runs.antt =====
-- The quota over any run of requests.
use dibs_reservation_sniper.Prelude.{
  ℕ, ◌≤◌, ◌<◌, ◌≡◌, ◌↔◌, refl, inl, inr, String, true, false, List, [], ◌∷◌, arith, eq_iff, leb,
  length, or_default, Option-cases, Bool-cases,
}
use dibs_reservation_sniper.Dict.{get, get-put, get-pop}
use dibs_reservation_sniper.Throttle.Window.{
  Event, Throttle, spent, keep_or_drop, drop_over, live, check, reset, consume, release,
  remove_token,
}
use dibs_reservation_sniper.Throttle.Quota.{
  counted, IsInQuota, live-some, live-none, live-IsInQuota, record-IsInQuota, length-remove_token,
}

-- A request that reserves an event, a look at the quota, a refund of a reservation, and a reset;
-- each with its clock readings.
pub data ThrottleOp : Type 0 where
  consuming : String → String → ℕ → ℕ → ℕ → ThrottleOp
  checking : String → ℕ → ThrottleOp
  releasing : String → String → ℕ → ThrottleOp
  resetting : String → ThrottleOp

unfoldable pub step : Throttle → ThrottleOp → Throttle
step t (consuming key token now now' later) = (consume t key token now now' later).0
step t (checking key now) = (check t key now).0
step t (releasing key token now) = release t key token now
step t (resetting key) = reset t key

unfoldable pub run : Throttle → List ThrottleOp → Throttle
run t [] = t
run t (o ∷ os) = run (step t o) os

-- A check that passes leaves room for one more.
check_room :
    (m : ℕ) (t : Throttle) (key : String) (now : ℕ)
    → IsInQuota m t
    → 1 ≤ m
    → (check t key now).1 ≡ true
    → counted (check t key now).0 key < m
unfolding check
check_room m t key now h one ok = elim (Option-cases (live t key now).1) [
  | inl e ↦ ground (arith, live-none t key now e, one)
  | inr (es, e) ↦ ground (arith, live-some t key now es e, h.quota, ok)
]

consume-IsInQuota :
    (m : ℕ) (t : Throttle) (key token : String) (now now' later : ℕ)
    → 1 ≤ m
    → IsInQuota m t
    → IsInQuota m (consume t key token now now' later).0
unfolding consume check
consume-IsInQuota m t key token now now' later one h =
    let h1 = live-IsInQuota m t key now h in
    elim (Bool-cases (check t key now).1) [
      | inl e ↦
          rw (consume, e)
            (record-IsInQuota m (check t key now).0 key token now' later h1
              (check_room m t key now h one e))
      | inr e ↦ rw (consume, e) h1
    ]

reset-IsInQuota : (m : ℕ) (t : Throttle) (key : String) → IsInQuota m t → IsInQuota m (reset t key)
unfolding reset
reset-IsInQuota m t key h = record {
  quota = h.quota;
  bounded = λ j. ground (arith, get-pop t.failures key j, h.bounded j);
}

release-IsInQuota :
    (m : ℕ) (t : Throttle) (key token : String) (now : ℕ)
    → IsInQuota m t
    → IsInQuota m (release t key token now)
unfolding release
release-IsInQuota m t key token now h =
    let t1 = (live t key now).0 in
    let h1 = live-IsInQuota m t key now h in
    elim (Option-cases (live t key now).1) [
      | inl e ↦ rw (release, e) h1
      | inr (es, e) ↦
          rw (release, e)
            (record {
              quota = h1.quota;
              bounded = λ j. ground (
                arith,
                eq_iff key j,
                get-put t1.failures key j (remove_token token es),
                h1.bounded j,
                h1.bounded key,
                live-some t key now es e,
                length-remove_token token es,
              );
            })
    ]

step-IsInQuota :
    (m : ℕ) (t : Throttle) (o : ThrottleOp) → 1 ≤ m → IsInQuota m t → IsInQuota m (step t o)
unfolding step check
step-IsInQuota m t (consuming key token now now' later) one h =
    consume-IsInQuota m t key token now now' later one h
step-IsInQuota m t (checking key now) one h = live-IsInQuota m t key now h
step-IsInQuota m t (releasing key token now) one h = release-IsInQuota m t key token now h
step-IsInQuota m t (resetting key) one h = reset-IsInQuota m t key h

-- From an empty throttle with a quota of at least one, whatever reservations, checks, refunds and
-- resets come in, at whatever readings of the clock, no key ever has more events than the quota.
pub run-IsInQuota :
    (m window : ℕ) (os : List ThrottleOp)
    → 1 ≤ m
    → IsInQuota m (run (record { max_events = m; window = window; failures = [] }) os)
unfolding get run
run-IsInQuota m window os one =
    go os (record { max_events = m; window = window; failures = [] })
      (record { quota = refl; bounded = λ key. omega arith })
  where
    go : (os : List ThrottleOp) (t : Throttle) → IsInQuota m t → IsInQuota m (run t os)
    go [] t h = h
    go (o ∷ os) t h = go os (step t o) (step-IsInQuota m t o one h)

spent_kept :
    (t : Throttle) (key : String) (es : List Event) (m : ℕ)
    → 1 ≤ m
    → spent m (keep_or_drop t key es).1 ≡ leb m (length es)
spent_kept t key [] m one = ground arith
spent_kept t key (e ∷ es) m one = refl

-- Whether the quota is spent is read off the events that are still in the window.
spent-live :
    (t : Throttle) (key : String) (now m : ℕ)
    → 1 ≤ m
    → spent m (live t key now).1
      ≡ leb m (length (drop_over t.window now (or_default (get t.failures key) [])))
unfolding live
spent-live t key now m one = elim (Option-cases (get t.failures key)) [
  | inl e ↦ rw (live, e) (unfold drop_over in ground arith)
  | inr (es, e) ↦ rw (live, e) (spent_kept t key (drop_over t.window now es) m one)
]

-- With a quota of at least one, a reservation is refused exactly when the key's events that are
-- still in the window have spent it, and then it does no more than a check does: nothing is
-- recorded.
pub consume_refused :
    (t : Throttle) (key token : String) (now now' later : ℕ)
    → 1 ≤ t.max_events
    → ((consume t key token now now' later).1 ≡ false
        ↔ (t.max_events ≤ length (drop_over t.window now (or_default (get t.failures key) []))))
      × ((consume t key token now now' later).1 ≡ false
          → (consume t key token now now' later).0 ≡ (check t key now).0)
unfolding consume check
consume_refused t key token now now' later one =
    (ground (arith, spent-live t key now t.max_events one), λ e. ground arith)
