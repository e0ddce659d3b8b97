-- ===== src/Service/Commit.antt =====
-- How a poll's plan is committed, and what follows a commit.
use dibs_reservation_sniper.Prelude.{
  ℕ, ◌+◌, ◌-◌, String, Bool, true, false, ◌||◌, Option, none, some, ltb, leb, min, if◌then◌else◌,
}
use dibs_reservation_sniper.Model.{
  WatchStatus, Watch, WatchRuntime, WindowClaim, CommitStatus, CommitResult, WatchPollOutcome,
  WatchPollResult,
}
use dibs_reservation_sniper.Repo.{commit_window, get_watch}
use dibs_reservation_sniper.Schedule.{min_delay, next_delay}
use dibs_reservation_sniper.Backoff.{saturating_outages, outage_delay}
use dibs_reservation_sniper.Service.Env.{
  World, Settings, Readings, make_result, record_history, notify, publish,
}
use dibs_reservation_sniper.Service.Builders.{
  expired_watch, attempted_watch, outage_watch, successor_runtime, terminal_runtime, event_of,
  outcome_of,
}

abbrev pub is_committed : CommitStatus → Bool
is_committed CommitStatus.committed = true
is_committed _ = false

-- `result.watch or new_watch`: a document is never false.
abbrev pub committed_or : Option Watch → Watch → Watch
committed_or none w = w
committed_or (some c) w = c

module _ {A : Type 0} where
  -- `_noop`
  unfoldable pub noop_result : World A → String → World A × Option WatchPollResult
  noop_result w id = elim (get_watch w.repo id) [
    | none ↦ (w, make_result WatchPollOutcome.unknown_watch none none)
    | some watch ↦ (w, make_result WatchPollOutcome.already_finished (some watch) none)
  ]

module _ {A : Type 0} (sha1_hex : String → String) (settings : Settings) (at : Readings) where
  -- `_commit_window`
  unfoldable pub commit : World A → WindowClaim → Watch → WatchRuntime → World A × CommitResult
  commit w claim new_watch new_runtime =
      let (repo, result) =
        commit_window sha1_hex w.repo claim new_watch new_runtime at.commit_at at.retain_at in
      let w' : World A = record w { repo = repo } in
      (
        if is_committed result.status
            then record_history w' (committed_or result.watch new_watch)
                (some (claim.runtime.revision + 1))
            else w',
        result,
      )

  announce : World A → Watch → Option String → World A
  announce w watch none = w
  announce w watch (some event_id) = elim (event_of watch.status) [
    | none ↦ w
    | some event ↦ notify w watch event
  ]

  finished : World A → Watch → Option String → World A × Option WatchPollResult
  unfolding announce
  finished w watch event_id = elim watch.status [
    | WatchStatus.cancelled ↦ (w, make_result WatchPollOutcome.already_finished (some watch) none)
    | other ↦ (
      announce w watch event_id,
      elim (outcome_of other) [
        | none ↦ none
        | some outcome ↦ make_result outcome (some watch) none
      ],
    )
  ]

  -- `_commit_terminal`
  unfoldable pub commit_terminal : World A → WindowClaim → Watch → World A × Option WatchPollResult
  unfolding commit finished
  commit_terminal w claim new_watch =
      let (w', result) = commit w claim new_watch (terminal_runtime claim.runtime) in
      if is_committed result.status
      then finished w' (committed_or result.watch new_watch) result.event_id
      else noop_result w' new_watch.watch_id

  -- The tail that `_commit_miss` and `_commit_outage` share: one successor, published once.
  unfoldable pub commit_successor :
      World A
      → WindowClaim
      → Watch
      → Watch
      → WatchRuntime
      → ℕ
      → ℕ
      → World A × Option WatchPollResult
  unfolding commit
  commit_successor w claim watch successor runtime delay scheduled =
      let (w', result) = commit w claim successor runtime in
      let committed = committed_or result.watch successor in
      if is_committed result.status
      then (
        publish w' committed.watch_id runtime.window_id delay (some scheduled),
        make_result WatchPollOutcome.no_availability (some committed) (some delay),
      )
      else noop_result w' watch.watch_id

  -- `_commit_miss`: `draw` is the jitter's.
  unfoldable pub commit_miss :
      World A → WindowClaim → Watch → ℕ → ℕ → Option String → World A × Option WatchPollResult
  unfolding commit_terminal commit_successor
  commit_miss w claim watch now draw error =
      let attempted = attempted_watch watch now error in
      let delay = min (next_delay settings.schedule draw) (watch.expires_at - now) in
      if leb watch.max_attempts attempted.attempts || ltb delay min_delay
      then commit_terminal w claim (expired_watch attempted now true)
      else commit_successor w claim watch (record attempted { next_check_at = some (now + delay) })
          (successor_runtime claim.runtime watch.watch_id (now + delay) 0) delay (now + delay)

  -- `_commit_outage`
  unfoldable pub commit_outage :
      World A → WindowClaim → Watch → ℕ → ℕ → String → World A × Option WatchPollResult
  unfolding commit_terminal commit_successor
  commit_outage w claim watch now draw error =
      let outages =
        saturating_outages settings.schedule settings.backoff_max
          (claim.runtime.consecutive_outages + 1) in
      elim (outage_delay settings.schedule settings.backoff_max outages (watch.expires_at - now)
        draw) [
          | none ↦ commit_terminal w claim (expired_watch watch now false)
          | some delay ↦
              commit_successor w claim watch (outage_watch watch now error (now + delay))
                (successor_runtime claim.runtime watch.watch_id (now + delay) outages) delay
                (now + delay)
        ]
