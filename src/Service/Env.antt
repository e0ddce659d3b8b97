-- ===== src/Service/Env.antt =====
-- What a poll reads and writes: the store, the provider behind the adapter interface of
-- backend/integrations/base.py, and the logs of what was published, projected and announced,
-- newest first. Every provider call is an await, during which other tasks run, so a call may
-- change the whole world and not the provider's part alone.
use dibs_reservation_sniper.Prelude.{ℕ, String, Option, none, some, List, ◌∷◌, if◌then◌else◌}
use dibs_reservation_sniper.Model.{
  Watch, AvailabilityQuery, AvailabilitySlot, BookingConfirmation, WatchPollOutcome,
  WatchPollResult, validate_scheduling,
}
use dibs_reservation_sniper.Repo.{Repo}
use dibs_reservation_sniper.Schedule.{PollSchedule}

-- How an adapter call ends: with a value, with one of the two slot races, with another
-- `AdapterError` and its text, not before the provider deadline, or with an exception that the
-- service does not catch: one that is no `AdapterError`, or a cancellation from outside.
pub data Reply (A : Type 0) : Type 0 where
  value : A → Reply A
  slot_unavailable : Reply A
  slot_not_found : Reply A
  failed : String → Reply A
  timed_out : Reply A
  raised : Reply A

-- A confirmed answer may lack its confirmation, whose default is `None`.
pub data Reconciliation : Type 0 where
  confirmed : Option BookingConfirmation → Reconciliation
  definitively_absent : Reconciliation
  unresolved : Reconciliation

pub data WatchEvent : Type 0 where
  availability_found booked expired : WatchEvent

pub record Publication : Type 0 where
  pub watch_id : String
  pub window_id : Option String
  pub delay : ℕ
  pub due_at : Option ℕ

-- A revision of -1 is `none`.
pub record HistoryEntry : Type 0 where
  pub watch : Watch
  pub revision : Option ℕ

pub record Notice : Type 0 where
  pub watch : Watch
  pub event : WatchEvent

pub record World (A : Type 0) : Type 0 where
  pub repo : Repo
  pub provider : A
  pub published : List Publication
  pub history : List HistoryEntry
  pub notices : List Notice

pub record Adapter (A : Type 0) : Type 0 where
  pub search_availability : World A → AvailabilityQuery → World A × Reply (List AvailabilitySlot)
  pub get_booking : World A → String → World A × Reply (Option BookingConfirmation)
  pub book_slot : World A → String → String → World A × Reply BookingConfirmation
  pub reconcile_booking : World A → String → World A × Reply Reconciliation

-- `backoff_max` is the larger of the setting and the interval, as the constructor makes it.
pub record Settings : Type 0 where
  pub schedule : PollSchedule
  pub max_attempts : ℕ
  pub backoff_max : ℕ
  pub poll_lease : ℕ

-- The clock readings of one poll, in their order.
pub record Readings : Type 0 where
  pub claimed_at : ℕ
  pub started_at : ℕ
  pub permit_at : ℕ
  pub commit_at : ℕ
  pub retain_at : ℕ

-- `WatchPollResult(...)`: `none` is its `ValueError`.
unfoldable pub make_result : WatchPollOutcome → Option Watch → Option ℕ → Option WatchPollResult
make_result outcome watch retry_in =
    let r : WatchPollResult = record { outcome = outcome; watch = watch; retry_in = retry_in } in
    if validate_scheduling r then some r else none

module _ {A : Type 0} where
  -- `_record_history` and `_notify` never raise, so what counts of them is that they are called.
  unfoldable pub record_history : World A → Watch → Option ℕ → World A
  record_history w watch revision = record w {
    history = record { watch = watch; revision = revision } ∷ w.history;
  }

  unfoldable pub notify : World A → Watch → WatchEvent → World A
  notify w watch event = record w { notices = record { watch = watch; event = event } ∷ w.notices }

  -- `_dispatch`: a failure to publish is swallowed too.
  unfoldable pub publish : World A → String → Option String → ℕ → Option ℕ → World A
  publish w watch_id window_id delay due_at = record w {
    published =
        record { watch_id = watch_id; window_id = window_id; delay = delay; due_at = due_at }
        ∷ w.published;
  }
