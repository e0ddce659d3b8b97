-- ===== src/Throttle/Window.antt =====
-- The throttle's state and methods. The monotonic clock is counted in whole ticks; a method takes
-- the reading `now` of its expiry, of a sweep's too, and `later`, that of the event it appends.
use dibs_reservation_sniper.Prelude.{
  ℕ, ◌+◌, String, Bool, true, false, Option, none, some, List, [], ◌∷◌, ◌++◌, leb, str_eq,
  if◌then◌else◌, length,
}
use dibs_reservation_sniper.Dict.{Dict, get, put, pop}

pub record Event : Type 0 where
  pub at : ℕ
  pub token : String

pub record Throttle : Type 0 where
  pub max_events : ℕ
  pub window : ℕ
  pub failures : Dict (List Event)

-- _MAX_TRACKED_KEYS
abbrev pub max_tracked_keys : ℕ
max_tracked_keys = 10000

-- The loop of `_live`: an event is over when `at <= now - window`.
unfoldable pub drop_over : ℕ → ℕ → List Event → List Event
drop_over window now [] = []
drop_over window now (e ∷ es) =
    let rest = drop_over window now es in if leb (e.at + window) now then rest else e ∷ es

abbrev pub keep_or_drop : Throttle → String → List Event → Throttle × Option (List Event)
keep_or_drop t key [] = (record t { failures = pop t.failures key }, none)
keep_or_drop t key (e ∷ es) = (record t { failures = put t.failures key (e ∷ es) }, some (e ∷ es))

-- `_live`
unfoldable pub live : Throttle → String → ℕ → Throttle × Option (List Event)
unfolding drop_over
live t key now = elim (get t.failures key) [
  | none ↦ (t, none)
  | some es ↦ keep_or_drop t key (drop_over t.window now es)
]

unfoldable pub sweep_keys : Throttle → Dict (List Event) → ℕ → Throttle
unfolding live
sweep_keys t [] now = t
sweep_keys t ((key, es) ∷ d) now = sweep_keys (live t key now).0 d now

-- `_sweep`
unfoldable pub sweep : Throttle → ℕ → Throttle
unfolding sweep_keys
sweep t now = sweep_keys t t.failures now

abbrev pub spent : ℕ → Option (List Event) → Bool
spent max_events none = false
spent max_events (some es) = leb max_events (length es)

-- `check`: `false` is the limit's exception.
unfoldable pub check : Throttle → String → ℕ → Throttle × Bool
check t key now =
    let (t', attempts) = live t key now in (t', if spent t.max_events attempts then false else true)

unfoldable pub append : Throttle → String → List Event → String → ℕ → Throttle × Option String
append t key es token later = (
  record t { failures = put t.failures key (es ++ (record { at = later; token = token } ∷ [])) },
  some token,
)

unfoldable pub admit_key : Throttle → String → String → ℕ → Throttle × Option String
unfolding append
admit_key t key token later =
    if leb max_tracked_keys (length t.failures) then (t, none) else append t key [] token later

unfoldable pub record_live :
    Throttle → Option (List Event) → String → String → ℕ → ℕ → Throttle × Option String
unfolding append admit_key
record_live t (some es) key token now later = append t key es token later
record_live t none key token now later =
    if leb max_tracked_keys (length t.failures)
    then admit_key (sweep t now) key token later
    else admit_key t key token later

-- `record`: `none` is the failing open of a full table; `token` is the fresh UUID's.
unfoldable pub record_event : Throttle → String → String → ℕ → ℕ → Throttle × Option String
unfolding record_live
record_event t key token now later =
    let (t', attempts) = live t key now in record_live t' attempts key token now later

unfoldable pub reset : Throttle → String → Throttle
reset t key = record t { failures = pop t.failures key }

-- `aconsume`: `false` is the limit's exception. Each of its two halves reads the clock anew.
unfoldable pub consume : Throttle → String → String → ℕ → ℕ → ℕ → Throttle × Bool
consume t key token now now' later =
    let (t', ok) = check t key now in
    if ok then ((record_event t' key token now' later).0, true) else (t', false)

unfoldable pub remove_token : String → List Event → List Event
remove_token token [] = []
remove_token token (e ∷ es) =
    let rest = remove_token token es in if str_eq e.token token then es else e ∷ rest

-- `arelease`, with a token. An emptied list of events stays until it is looked at.
unfoldable pub release : Throttle → String → String → ℕ → Throttle
release t key token now =
    let (t', attempts) = live t key now in
    elim attempts [
      | none ↦ t'
      | some es ↦ record t' { failures = put t'.failures key (remove_token token es) }
    ]
