-- ===== src/Throttle/Tracked.antt =====
-- The table of keys does not grow without bound.
use dibs_reservation_sniper.Prelude.{
  ℕ, ◌+◌, ◌≤◌, ◌<◌, ◌≡◌, inl, inr, String, Bool, Option, some, List, [], ◌∷◌, ◌++◌, arith, leb,
  if_keeps, length, Option-cases, Bool-cases,
}
use dibs_reservation_sniper.Dict.{Dict, get, length-put, length-pop-le}
use dibs_reservation_sniper.Throttle.Window.{
  Event, Throttle, max_tracked_keys, keep_or_drop, drop_over, live, sweep, sweep_keys, record_event,
  record_live, admit_key, append, check, consume, release, reset, remove_token,
}
use dibs_reservation_sniper.Throttle.Runs.{
  ThrottleOp, consuming, checking, releasing, resetting, step, run,
}
use dibs_reservation_sniper.Throttle.Quota.{live-some}

keep_tracked :
    (t : Throttle) (key : String) (es fs : List Event)
    → get t.failures key ≡ some fs
    → length (keep_or_drop t key es).0.failures ≤ length t.failures
keep_tracked t key [] fs h = ground (arith, length-pop-le t.failures key)
keep_tracked t key (e ∷ es) fs h = ground (arith, length-put t.failures key (e ∷ es))

live_tracked :
    (t : Throttle) (key : String) (now : ℕ) → length (live t key now).0.failures ≤ length t.failures
unfolding live
live_tracked t key now = elim (Option-cases (get t.failures key)) [
  | inl e ↦ rw (live, e) (omega arith)
  | inr (es, e) ↦ rw (live, e) (keep_tracked t key (drop_over t.window now es) es e)
]

sweep_tracked :
    (d : Dict (List Event)) (t : Throttle) (now : ℕ)
    → length (sweep_keys t d now).failures ≤ length t.failures
unfolding sweep_keys
sweep_tracked [] t now = omega arith
sweep_tracked ((key, es) ∷ d) t now =
    omega (arith, sweep_tracked d (live t key now).0 now, live_tracked t key now)

append_known :
    (t : Throttle) (key token : String) (es : List Event) (later : ℕ)
    → get t.failures key ≡ some es
    → length (append t key es token later).0.failures ≡ length t.failures
unfolding append
append_known t key token es later h =
    ground (arith, length-put t.failures key (es ++ (record { at = later; token = token } ∷ [])))

append_new :
    (t : Throttle) (key token : String) (later : ℕ)
    → length (append t key [] token later).0.failures ≤ length t.failures + 1
unfolding append
append_new t key token later =
    ground (arith, length-put t.failures key (record { at = later; token = token } ∷ []))

admit_tracked :
    (t : Throttle) (key token : String) (later : ℕ)
    → length t.failures ≤ max_tracked_keys
    → length (admit_key t key token later).0.failures ≤ max_tracked_keys
unfolding admit_key
admit_tracked t key token later h = elim (Bool-cases (leb max_tracked_keys (length t.failures))) [
  | inl e ↦ rw (admit_key, e) h
  | inr e ↦
      let less : length t.failures < max_tracked_keys = ground arith in
      rw (admit_key, e) (omega (arith, append_new t key token later, less))
]

record_event_tracked :
    (t : Throttle) (key token : String) (now later : ℕ)
    → length t.failures ≤ max_tracked_keys
    → length (record_event t key token now later).0.failures ≤ max_tracked_keys
unfolding record_event record_live sweep
record_event_tracked t key token now later h =
    let t1 = (live t key now).0 in
    let few = live_tracked t key now in
    elim (Option-cases (live t key now).1) [
      | inr (es, e) ↦
          rw (record_event, e)
            (omega (arith, append_known t1 key token es later (live-some t key now es e), few, h))
      | inl e ↦
          rw (record_event, e)
            (if_keeps (λ (x : Throttle × Option String). length x.0.failures ≤ max_tracked_keys) _
              (admit_tracked (sweep t1 now) key token later
                (omega (arith, sweep_tracked t1.failures t1 now, few, h)))
              (admit_tracked t1 key token later (omega (arith, few, h))))
    ]

consume_tracked :
    (t : Throttle) (key token : String) (now now' later : ℕ)
    → length t.failures ≤ max_tracked_keys
    → length (consume t key token now now' later).0.failures ≤ max_tracked_keys
unfolding consume check
consume_tracked t key token now now' later h =
    let few : length (live t key now).0.failures ≤ max_tracked_keys =
      omega (arith, live_tracked t key now, h) in
    if_keeps (λ (x : Throttle × Bool). length x.0.failures ≤ max_tracked_keys) _
      (record_event_tracked (live t key now).0 key token now' later few) few

release_tracked :
    (t : Throttle) (key token : String) (now : ℕ)
    → length (release t key token now).failures ≤ length t.failures
unfolding release
release_tracked t key token now =
    let t1 = (live t key now).0 in
    let few = live_tracked t key now in
    elim (Option-cases (live t key now).1) [
      | inl e ↦ rw (release, e) few
      | inr (es, e) ↦
          rw (release, e)
            (ground (
              arith,
              few,
              live-some t key now es e,
              length-put t1.failures key (remove_token token es),
            ))
    ]

step_tracked :
    (t : Throttle) (o : ThrottleOp)
    → length t.failures ≤ max_tracked_keys
    → length (step t o).failures ≤ max_tracked_keys
unfolding step check reset
step_tracked t (consuming key token now now' later) h = consume_tracked t key token now now' later h
step_tracked t (checking key now) h = omega (arith, live_tracked t key now, h)
step_tracked t (releasing key token now) h = omega (arith, release_tracked t key token now, h)
step_tracked t (resetting key) h = omega (arith, length-pop-le t.failures key, h)

-- From an empty throttle, after any reservations, checks, refunds and resets, of any number of keys
-- and at any readings of the clock, at most `max_tracked_keys` keys are tracked.
pub run_tracked :
    (m window : ℕ) (os : List ThrottleOp)
    → length (run (record { max_events = m; window = window; failures = [] }) os).failures
      ≤ max_tracked_keys
unfolding run
run_tracked m window os =
    go os (record { max_events = m; window = window; failures = [] }) (omega arith)
  where
    go :
        (os : List ThrottleOp) (t : Throttle)
        → length t.failures ≤ max_tracked_keys
        → length (run t os).failures ≤ max_tracked_keys
    go [] t h = h
    go (o ∷ os) t h = go os (step t o) (step_tracked t o h)
