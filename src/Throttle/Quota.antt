-- ===== src/Throttle/Quota.antt =====
-- The two bounds that the throttle keeps: events per key, and keys.
use dibs_reservation_sniper.Prelude.{
  ℕ, ◌≤◌, ◌<◌, ◌≡◌, inl, inr, String, Option, none, some, List, [], ◌∷◌, ◌++◌, arith, eq_iff,
  eq_refl, if_keeps, length, length-append, or_default, Option-cases,
}
use dibs_reservation_sniper.Dict.{Dict, get, get-put, get-pop}
use dibs_reservation_sniper.Throttle.Window.{
  Event, Throttle, keep_or_drop, drop_over, live, sweep, sweep_keys, record_event, record_live,
  admit_key, append, remove_token,
}

-- The events that are counted for a key.
abbrev pub counted : Throttle → String → ℕ
counted t key = length (or_default (get t.failures key) [])

-- No key has more events than the quota, which is the given one.
pub record IsInQuota (max_events : ℕ) (t : Throttle) : Type 0 where
  pub quota : t.max_events ≡ max_events
  pub bounded : (key : String) → counted t key ≤ max_events

pub length-drop_over :
    (window now : ℕ) (es : List Event) → length (drop_over window now es) ≤ length es
unfolding drop_over
length-drop_over window now [] = omega arith
length-drop_over window now (e ∷ es) = ground (arith, length-drop_over window now es)

pub length-remove_token :
    (token : String) (es : List Event) → length (remove_token token es) ≤ length es
unfolding remove_token
length-remove_token token [] = omega arith
length-remove_token token (e ∷ es) = ground (arith, length-remove_token token es)

keep_counted :
    (t : Throttle) (key : String) (es : List Event) (j : String)
    → length es ≤ counted t key
    → counted (keep_or_drop t key es).0 j ≤ counted t j
keep_counted t key [] j h = ground (arith, eq_iff key j, get-pop t.failures key j)
keep_counted t key (e ∷ es) j h = ground (arith, eq_iff key j, get-put t.failures key j (e ∷ es))

-- Looking at a key counts no more for any key.
pub counted-live :
    (t : Throttle) (key : String) (now : ℕ) (j : String)
    → counted (live t key now).0 j ≤ counted t j
unfolding live
counted-live t key now j = elim (Option-cases (get t.failures key)) [
  | inl e ↦ ground arith
  | inr (es, e) ↦
      rw (live, e)
        (keep_counted t key (drop_over t.window now es) j
          (ground (arith, length-drop_over t.window now es)))
]

pub live_kept :
    (t : Throttle) (key : String) (now : ℕ) → (live t key now).0.max_events ≡ t.max_events
unfolding live
live_kept t key now = ground arith

keep_some :
    (t : Throttle) (key : String) (es fs : List Event)
    → (keep_or_drop t key es).1 ≡ some fs
    → get (keep_or_drop t key es).0.failures key ≡ some fs
keep_some t key [] fs h = absurd (ground arith)
keep_some t key (e ∷ es) fs h = ground (arith, get-put t.failures key key (e ∷ es), eq_refl key)

-- The live events of a key are those that it is left with.
pub live-some :
    (t : Throttle) (key : String) (now : ℕ) (fs : List Event)
    → (live t key now).1 ≡ some fs
    → get (live t key now).0.failures key ≡ some fs
unfolding live
live-some t key now fs h = elim (Option-cases (get t.failures key)) [
  | inl e ↦ absurd (ground arith)
  | inr (es, e) ↦ rw (live, e) (keep_some t key (drop_over t.window now es) fs (ground (arith, h)))
]

keep_none :
    (t : Throttle) (key : String) (es : List Event)
    → (keep_or_drop t key es).1 ≡ none
    → get (keep_or_drop t key es).0.failures key ≡ none
keep_none t key [] h = ground (arith, get-pop t.failures key key, eq_refl key)
keep_none t key (e ∷ es) h = absurd (ground arith)

-- A key without live events is no longer there.
pub live-none :
    (t : Throttle) (key : String) (now : ℕ)
    → (live t key now).1 ≡ none
    → get (live t key now).0.failures key ≡ none
unfolding live
live-none t key now h = elim (Option-cases (get t.failures key)) [
  | inl e ↦ rw (live, e) e
  | inr (es, e) ↦ rw (live, e) (keep_none t key (drop_over t.window now es) (ground (arith, h)))
]

pub live-IsInQuota :
    (m : ℕ) (t : Throttle) (key : String) (now : ℕ) → IsInQuota m t → IsInQuota m (live t key now).0
live-IsInQuota m t key now h = record {
  quota = ground (arith, live_kept t key now, h.quota);
  bounded = λ j. omega (arith, counted-live t key now j, h.bounded j);
}

sweep-IsInQuota :
    (m : ℕ) (d : Dict (List Event)) (t : Throttle) (now : ℕ)
    → IsInQuota m t
    → IsInQuota m (sweep_keys t d now)
unfolding sweep_keys
sweep-IsInQuota m [] t now h = h
sweep-IsInQuota m ((key, es) ∷ d) t now h =
    sweep-IsInQuota m d (live t key now).0 now (live-IsInQuota m t key now h)

append-IsInQuota :
    (m : ℕ) (t : Throttle) (key token : String) (es : List Event) (later : ℕ)
    → IsInQuota m t
    → length es < m
    → IsInQuota m (append t key es token later).0
unfolding append
append-IsInQuota m t key token es later h less =
    let new : List Event = es ++ (record { at = later; token = token } ∷ []) in
    let size = length-append es (record { at = later; token = token } ∷ []) in
    record {
      quota = h.quota;
      bounded =
          λ j. ground (arith, eq_iff key j, get-put t.failures key j new, h.bounded j, size, less);
    }

-- An event is recorded where there is room for one more.
pub record-IsInQuota :
    (m : ℕ) (t : Throttle) (key token : String) (now later : ℕ)
    → IsInQuota m t
    → counted t key < m
    → IsInQuota m (record_event t key token now later).0
unfolding record_event record_live admit_key sweep
record-IsInQuota m t key token now later h room =
    let t1 = (live t key now).0 in
    let h1 = live-IsInQuota m t key now h in
    let less = counted-live t key now key in
    elim (Option-cases (live t key now).1) [
      | inr (es, e) ↦
          let left : length es < m = ground (arith, live-some t key now es e, less, room) in
          rw (record_event, e) (append-IsInQuota m t1 key token es later h1 left)
      | inl e ↦
          let fresh : length {A = Event} [] < m = omega (arith, room) in
          rw (record_event, e)
            (if_keeps (λ (x : Throttle × Option String). IsInQuota m x.0) _
              (if_keeps (λ (x : Throttle × Option String). IsInQuota m x.0) _
                (sweep-IsInQuota m t1.failures t1 now h1)
                (append-IsInQuota m (sweep t1 now) key token [] later
                  (sweep-IsInQuota m t1.failures t1 now h1) fresh))
              (if_keeps (λ (x : Throttle × Option String). IsInQuota m x.0) _ h1
                (append-IsInQuota m t1 key token [] later h1 fresh)))
    ]
