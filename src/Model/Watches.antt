-- ===== src/Model/Watches.antt =====
-- backend/models/watch.py. An instant is its microseconds since an epoch, the resolution of
-- `datetime`; the UTC offset that an aware `datetime` carries does not change an instant.
use dibs_reservation_sniper.Prelude.{
  ℕ, ◌+◌, ◌*◌, max, String, Bool, true, false, not, ◌&&◌, ◌||◌, Option, List, [], ◌∷◌, leb, is_some,
}
use dibs_reservation_sniper.Model.Reservation.{
  AvailabilityQuery, AvailabilitySlot, BookingConfirmation, IsoDate,
}

pub data WatchStatus : Type 0 where
  active found booked expired cancelled : WatchStatus

abbrev pub is_active : WatchStatus → Bool
is_active active = true
is_active _ = false

abbrev pub is_terminal : WatchStatus → Bool
is_terminal s = not (is_active s)

-- The status as its `value`, which names a terminal event.
abbrev pub status_value : WatchStatus → String
status_value active = "ACTIVE"
status_value found = "FOUND"
status_value booked = "BOOKED"
status_value expired = "EXPIRED"
status_value cancelled = "CANCELLED"

pub data WatchPollOutcome : Type 0 where
  no_availability found booked expired already_finished unknown_watch : WatchPollOutcome

pub record Watch : Type 0 where
  pub watch_id : String
  pub status : WatchStatus
  pub query : AvailabilityQuery
  pub auto_book : Bool
  pub created_at : ℕ
  pub updated_at : ℕ
  pub expires_at : ℕ
  pub attempts : ℕ
  pub max_attempts : ℕ
  pub last_checked_at : Option ℕ
  pub next_check_at : Option ℕ
  pub found_slots : List AvailabilitySlot
  pub booking : Option BookingConfirmation
  pub last_error : Option String

-- self.attempts >= self.max_attempts or now >= self.expires_at
unfoldable pub is_exhausted : Watch → ℕ → Bool
is_exhausted w now = leb w.max_attempts w.attempts || leb w.expires_at now

abbrev is_booked : WatchStatus → Bool
is_booked booked = true
is_booked _ = false

abbrev is_found : WatchStatus → Bool
is_found found = true
is_found _ = false

abbrev is_empty : List AvailabilitySlot → Bool
is_empty [] = true
is_empty (x ∷ xs) = false

-- `Watch.validate_state`: `false` is one of its four `ValueError`s.
unfoldable pub validate_state : Watch → Bool
validate_state w =
    not (is_booked w.status && not (is_some w.booking))
    && (not (is_found w.status && is_empty w.found_slots)
        && (not (is_terminal w.status && is_some w.next_check_at) && leb w.attempts w.max_attempts))

pub record WatchPollResult : Type 0 where
  pub outcome : WatchPollOutcome
  pub watch : Option Watch
  pub retry_in : Option ℕ

abbrev is_rescheduled : WatchPollOutcome → Bool
is_rescheduled no_availability = true
is_rescheduled _ = false

abbrev is_unknown : WatchPollOutcome → Bool
is_unknown unknown_watch = true
is_unknown _ = false

abbrev same : Bool → Bool → Bool
same true b = b
same false b = not b

-- `WatchPollResult.validate_scheduling`: `false` is one of its `ValueError`s.
unfoldable pub validate_scheduling : WatchPollResult → Bool
validate_scheduling r =
    same (is_rescheduled r.outcome) (is_some r.retry_in)
    && same (is_unknown r.outcome) (not (is_some r.watch))

abbrev pub one_second : ℕ
one_second = 1000000

-- The midnight after a reservation date depends on the time zone database, so it is an argument.
module _ (midnight_after : IsoDate → ℕ) where
  unfoldable pub default_expiry : AvailabilityQuery → ℕ → ℕ
  default_expiry q created_at = max (midnight_after q.date) (created_at + 60 * 1000000)
