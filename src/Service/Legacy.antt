-- ===== src/Service/Legacy.antt =====
-- `poll_once`, and the unfenced path behind it for a record that has no current window. Unlike the
-- fenced path it lets a failed publication escape, and it has no provider deadline: both, and an
-- adapter that never answers, are `none`.
use dibs_reservation_sniper.Prelude.{
  ℕ, ◌+◌, ◌-◌, String, Bool, false, Option, none, some, List, [], ◌∷◌, min, take, leb,
  if◌then◌else◌,
}
use dibs_reservation_sniper.Model.{
  WatchStatus, Watch, is_terminal, is_exhausted, AvailabilitySlot, BookingConfirmation,
  WatchPollOutcome, WatchPollResult, WatchRuntime,
}
use dibs_reservation_sniper.Repo.{save, get_watch, get_runtime}
use dibs_reservation_sniper.Schedule.{next_delay}
use dibs_reservation_sniper.Service.Env.{
  World, Settings, Readings, Adapter, Reply, WatchEvent, make_result, record_history, notify,
  publish,
}
use dibs_reservation_sniper.Service.Builders.{
  max_recorded_slots, error_text, idempotency_key, attempted_watch,
}
use dibs_reservation_sniper.Service.Sequence.{Booked, book, got, exhausted, errored, late, escaped}
use dibs_reservation_sniper.Service.Poll.{poll_window}

-- The document of a finished legacy poll: the status, and nothing scheduled.
abbrev legacy_done : WatchStatus → Watch → ℕ → Watch
legacy_done status watch now = record watch {
  status = status;
  next_check_at = none;
  updated_at = now;
}

abbrev legacy_booked : Watch → ℕ → BookingConfirmation → Watch
legacy_booked watch now confirmation = record (legacy_done WatchStatus.booked watch now) {
  found_slots = confirmation.slot ∷ [];
  booking = some confirmation;
}

module _ {A : Type 0} where
  -- Save, project, announce.
  legacy_finish : World A → Watch → WatchEvent → WatchPollOutcome → World A × Option WatchPollResult
  legacy_finish w watch event outcome = (
    notify (record_history (record w { repo = (save w.repo watch).0 }) watch none) watch event,
    make_result outcome (some watch) none,
  )

  -- `_legacy_expire`
  unfoldable pub legacy_expire : World A → Watch → ℕ → World A × Option WatchPollResult
  unfolding legacy_finish
  legacy_expire w watch now =
      legacy_finish w (legacy_done WatchStatus.expired watch now) WatchEvent.expired
        WatchPollOutcome.expired

module _ {A : Type 0} (settings : Settings) (enqueued : Bool) where
  -- `_legacy_reschedule`: `enqueued` is whether the queue takes the successor.
  unfoldable pub legacy_reschedule : World A → Watch → ℕ → ℕ → World A × Option WatchPollResult
  unfolding legacy_expire
  legacy_reschedule w watch now draw =
      let remaining = watch.expires_at - now in
      let delay = min (next_delay settings.schedule draw) remaining in
      let pending : Watch = record watch { next_check_at = some (now + delay); updated_at = now } in
      let saved : World A = record w { repo = (save w.repo pending).0 } in
      if leb watch.expires_at now
      then legacy_expire w watch now
      else if enqueued
      then (
        record_history (publish saved watch.watch_id none delay none) pending none,
        make_result WatchPollOutcome.no_availability (some pending) (some delay),
      )
      else (saved, none)

  expire_or_reschedule : World A → Watch → ℕ → ℕ → World A × Option WatchPollResult
  unfolding legacy_reschedule
  expire_or_reschedule w watch now draw =
      if is_exhausted watch now
      then legacy_expire w watch now
      else legacy_reschedule w watch now draw

  -- `_legacy_retry_auto_book`
  unfoldable pub legacy_retry_auto_book :
      World A → Watch → ℕ → ℕ → String → World A × Option WatchPollResult
  unfolding expire_or_reschedule
  legacy_retry_auto_book w watch now draw error =
      expire_or_reschedule w (record watch { last_error = some error }) now draw

  after_legacy_book : World A → Watch → ℕ → ℕ → Booked → World A × Option WatchPollResult
  unfolding legacy_retry_auto_book legacy_finish
  after_legacy_book w watch now draw (got confirmation) =
      legacy_finish w (legacy_booked watch now confirmation) WatchEvent.booked
        WatchPollOutcome.booked
  after_legacy_book w watch now draw exhausted =
      legacy_retry_auto_book w watch now draw
        "Available slots disappeared before they could be booked"
  after_legacy_book w watch now draw (errored message) =
      legacy_retry_auto_book w watch now draw (error_text message)
  after_legacy_book w watch now draw late = (w, none)
  after_legacy_book w watch now draw escaped = (w, none)

  module _ (p : Adapter A) where
    -- `_legacy_fulfill`
    unfoldable pub legacy_fulfill :
        World A → Watch → List AvailabilitySlot → ℕ → ℕ → World A × Option WatchPollResult
    unfolding after_legacy_book legacy_finish
    legacy_fulfill w watch slots now draw =
        let (w', outcome) = book p w (idempotency_key watch) slots in
        if watch.auto_book
        then after_legacy_book w' watch now draw outcome
        else legacy_finish w
            (record (legacy_done WatchStatus.found watch now) {
              found_slots = take max_recorded_slots slots;
            })
            WatchEvent.availability_found WatchPollOutcome.found

    with_slots :
        World A
        → Watch
        → List AvailabilitySlot
        → Option String
        → ℕ
        → ℕ
        → World A × Option WatchPollResult
    unfolding legacy_fulfill expire_or_reschedule
    with_slots w watch [] error now draw =
        expire_or_reschedule w (attempted_watch watch now error) now draw
    with_slots w watch (slot ∷ slots) error now draw =
        legacy_fulfill w (attempted_watch watch now error) (slot ∷ slots) now draw

    -- `_search`: every `AdapterError`, the slot races too, is an empty result with its text.
    after_legacy_search :
        World A
        → Watch
        → ℕ
        → ℕ
        → String
        → Reply (List AvailabilitySlot)
        → World A × Option WatchPollResult
    unfolding with_slots
    after_legacy_search w watch now draw race (Reply.value slots) =
        with_slots w watch slots none now draw
    after_legacy_search w watch now draw race Reply.slot_unavailable =
        with_slots w watch [] (some (error_text race)) now draw
    after_legacy_search w watch now draw race Reply.slot_not_found =
        with_slots w watch [] (some (error_text race)) now draw
    after_legacy_search w watch now draw race (Reply.failed message) =
        with_slots w watch [] (some (error_text message)) now draw
    after_legacy_search w watch now draw race Reply.timed_out = (w, none)
    after_legacy_search w watch now draw race Reply.raised = (w, none)

    legacy_check : World A → Watch → ℕ → ℕ → String → World A × Option WatchPollResult
    unfolding after_legacy_search
    legacy_check w watch now draw race =
        let (w', reply) = p.search_availability w watch.query in
        after_legacy_search w' watch now draw race reply

    -- `_legacy_replayed_booking`, then the check. An adapter error of `get_booking` escapes.
    after_legacy_get :
        World A
        → Watch
        → ℕ
        → ℕ
        → String
        → Reply (Option BookingConfirmation)
        → World A × Option WatchPollResult
    unfolding legacy_check legacy_finish
    after_legacy_get w watch now draw race (Reply.value (some existing)) =
        legacy_finish w (legacy_booked watch now existing) WatchEvent.booked WatchPollOutcome.booked
    after_legacy_get w watch now draw race (Reply.value none) = legacy_check w watch now draw race
    after_legacy_get w watch now draw race _ = (w, none)

    -- `_legacy_poll_once`: `race` is the text of a slot race, should a search raise one.
    unfoldable pub legacy_poll_once :
        World A → Watch → ℕ → ℕ → String → World A × Option WatchPollResult
    unfolding after_legacy_get legacy_check
    legacy_poll_once w watch now draw race =
        let (w', reply) = p.get_booking w (idempotency_key watch) in
        if is_exhausted watch now
        then legacy_expire w watch now
        else if watch.auto_book
        then after_legacy_get w' watch now draw race reply
        else legacy_check w watch now draw race

    legacy_entry : World A → Option Watch → ℕ → ℕ → String → World A × Option WatchPollResult
    unfolding legacy_poll_once
    legacy_entry w none now draw race = (w, make_result WatchPollOutcome.unknown_watch none none)
    legacy_entry w (some watch) now draw race =
        if is_terminal watch.status
        then (w, make_result WatchPollOutcome.already_finished (some watch) none)
        else legacy_poll_once w watch now draw race

    abbrev current_window : Option WatchRuntime → Option String
    current_window none = none
    current_window (some r) = r.window_id

    -- `poll_once`
    unfoldable pub poll_once :
        (String → String)
        → Readings
        → ℕ
        → World A
        → String
        → String
        → String
        → World A × Option WatchPollResult
    unfolding legacy_entry
    poll_once sha1_hex at draw w id owner race = elim (current_window (get_runtime w.repo id)) [
      | some window_id ↦ poll_window sha1_hex settings p at draw w id window_id owner false
      | none ↦ legacy_entry w (get_watch w.repo id) at.started_at draw race
    ]
