-- ===== src/Throttle/Full.antt =====
-- When an event is not recorded.
use dibs_reservation_sniper.Prelude.{ℕ, ◌≤◌, ◌≡◌, ◌⊎◌, String, Option, none, some, List, length}
use dibs_reservation_sniper.Dict.{Dict, get}
use dibs_reservation_sniper.Throttle.Window.{Event, Throttle, max_tracked_keys, drop_over}

-- Some events, of which none is over.
abbrev pub IsFresh : ℕ → ℕ → List Event → Type 0
IsFresh window now es = (drop_over window now es ≡ es) × (1 ≤ length es)

-- The key is not tracked, or has events that count.
abbrev IsSettled : ℕ → ℕ → Option (List Event) → Type 0
IsSettled window now none = Unit {0}
IsSettled window now (some es) = IsFresh window now es

-- What is left when an event is not recorded: a full table, every key of which has events that
-- count.
abbrev pub IsFull : Throttle → ℕ → Type 0
IsFull t now =
    (max_tracked_keys ≤ length t.failures)
    × ((j : String) → IsSettled t.window now (get t.failures j))

-- Recorded under its token, or turned away.
abbrev pub IsRecordedOrFull : Throttle × Option String → String → ℕ → Type 0
IsRecordedOrFull x token now = (x.1 ≡ some token) ⊎ ((x.1 ≡ none) × IsFull x.0 now)
