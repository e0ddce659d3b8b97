-- ===== src/Service/Builders.antt =====
-- The documents and sidecars that a poll commits.
use Prim.Native.String.{◌++◌ as str_append}
use dibs_reservation_sniper.Prelude.{
  ℕ, zero, suc, ◌+◌, String, Bool, true, false, Option, none, some, List, [], ◌∷◌, min, take,
}
use dibs_reservation_sniper.Model.{
  WatchStatus, Watch, WatchRuntime, AvailabilitySlot, BookingConfirmation, WatchPollOutcome,
  window_id_for,
}
use dibs_reservation_sniper.Service.Env.{WatchEvent}

-- MAX_RECORDED_SLOTS
abbrev pub max_recorded_slots : ℕ
max_recorded_slots = 16

-- A text's first `n` characters.
clip : ℕ → String → String
clip zero s = String.[]
clip (suc n) String.[] = String.[]
clip (suc n) (String.◌∷◌ c s) = String.◌∷◌ c (clip n s)

or_text : String → String → String
or_text String.[] d = d
or_text (String.◌∷◌ c s) d = String.◌∷◌ c s

-- `str(exc)[:500] or "The reservation provider failed"`
unfoldable pub error_text : String → String
unfolding clip or_text
error_text message = or_text (clip 500 message) "The reservation provider failed"

unfoldable pub idempotency_key : Watch → String
idempotency_key watch = str_append "watch:" watch.watch_id

abbrev pub count_attempt : Watch → ℕ
count_attempt watch = min (watch.attempts + 1) watch.max_attempts

unfoldable pub found_watch : Watch → List AvailabilitySlot → ℕ → Watch
found_watch watch slots now = record watch {
  status = WatchStatus.found;
  found_slots = take max_recorded_slots slots;
  next_check_at = none;
  updated_at = now;
  attempts = count_attempt watch;
  last_checked_at = some now;
  last_error = none;
}

unfoldable pub booked_watch : Watch → ℕ → BookingConfirmation → Bool → Watch
booked_watch watch now confirmation true = record watch {
  status = WatchStatus.booked;
  found_slots = confirmation.slot ∷ [];
  booking = some confirmation;
  next_check_at = none;
  updated_at = now;
  attempts = count_attempt watch;
  last_checked_at = some now;
  last_error = none;
}
booked_watch watch now confirmation false = record watch {
  status = WatchStatus.booked;
  found_slots = confirmation.slot ∷ [];
  booking = some confirmation;
  next_check_at = none;
  updated_at = now;
}

unfoldable pub cancelled_watch : Watch → ℕ → Watch
cancelled_watch watch now = record watch {
  status = WatchStatus.cancelled;
  next_check_at = none;
  updated_at = now;
}

unfoldable pub expired_watch : Watch → ℕ → Bool → Watch
expired_watch watch now true = record watch {
  status = WatchStatus.expired;
  next_check_at = none;
  updated_at = now;
  last_checked_at = some now;
}
expired_watch watch now false = record watch {
  status = WatchStatus.expired;
  next_check_at = none;
  updated_at = now;
}

-- A missed check, before it is known whether a successor follows.
unfoldable pub attempted_watch : Watch → ℕ → Option String → Watch
attempted_watch watch now error = record watch {
  attempts = count_attempt watch;
  last_checked_at = some now;
  updated_at = now;
  last_error = error;
}

unfoldable pub outage_watch : Watch → ℕ → String → ℕ → Watch
outage_watch watch now error scheduled = record watch {
  last_checked_at = some now;
  updated_at = now;
  last_error = some error;
  next_check_at = some scheduled;
}

-- The sidecar of the next cadence window.
unfoldable pub successor_runtime : WatchRuntime → String → ℕ → ℕ → WatchRuntime
successor_runtime runtime watch_id scheduled outages = record runtime {
  cadence_sequence = runtime.cadence_sequence + 1;
  window_id = some (window_id_for watch_id (runtime.cadence_sequence + 1));
  scheduled_for = some scheduled;
  phase = none;
  cancel_requested = false;
  consecutive_outages = outages;
}

unfoldable pub terminal_runtime : WatchRuntime → WatchRuntime
terminal_runtime runtime = record runtime {
  window_id = none;
  scheduled_for = none;
  phase = none;
  cancel_requested = false;
  consecutive_outages = 0;
}

-- `_EVENT_FOR` and `_OUTCOME_FOR`: `none` is a missing key.
abbrev pub event_of : WatchStatus → Option WatchEvent
event_of WatchStatus.found = some WatchEvent.availability_found
event_of WatchStatus.booked = some WatchEvent.booked
event_of WatchStatus.expired = some WatchEvent.expired
event_of _ = none

abbrev pub outcome_of : WatchStatus → Option WatchPollOutcome
outcome_of WatchStatus.found = some WatchPollOutcome.found
outcome_of WatchStatus.booked = some WatchPollOutcome.booked
outcome_of WatchStatus.expired = some WatchPollOutcome.expired
outcome_of _ = none
