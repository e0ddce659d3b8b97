-- ===== src/Repo/Transitions.antt =====
-- The transitions that need no claim: a user's cancellation and an expiry.
use dibs_reservation_sniper.Prelude.{
  ℕ, String, Bool, true, false, not, ◌&&◌, Option, none, some, ◌==◌, if◌then◌else◌, is_some_and,
}
use dibs_reservation_sniper.Dict.{get, put}
use dibs_reservation_sniper.Model.{
  WatchStatus, Watch, is_terminal, is_exhausted, WatchRuntime, RuntimePhase, TransitionStatus,
  TransitionResult,
}
use dibs_reservation_sniper.Repo.State.{Repo, apply_terminal, next_revision, issue_event}

abbrev pub refuse : TransitionStatus → Option Watch → TransitionResult
refuse status watch = record { status = status; watch = watch; event_id = none; revision = none }

-- A finished copy of a watch, with nothing scheduled.
abbrev pub finish_as : WatchStatus → Watch → ℕ → Watch
finish_as status watch now = record watch {
  status = status;
  next_check_at = none;
  updated_at = now;
}

abbrev is_booking_phase : RuntimePhase → Bool
is_booking_phase RuntimePhase.booking = true
is_booking_phase RuntimePhase.polling = false

abbrev pub in_booking : WatchRuntime → Bool
in_booking r = is_some_and r.phase is_booking_phase

cancel_now : Repo → String → Watch → Option WatchRuntime → ℕ → Repo × TransitionResult
cancel_now s id watch runtime now = (
  apply_terminal s id (finish_as WatchStatus.cancelled watch now) runtime now,
  record {
    status = TransitionStatus.applied;
    watch = some (finish_as WatchStatus.cancelled watch now);
    event_id = none;
    revision = some (next_revision runtime);
  },
)

cancel_known : Repo → String → Watch → Option WatchRuntime → ℕ → Repo × TransitionResult
unfolding cancel_now
cancel_known s id watch none now = cancel_now s id watch none now
cancel_known s id watch (some r) now =
    if in_booking r
    then (
      record s { runtimes = put s.runtimes id (record r { cancel_requested = true }) },
      refuse TransitionStatus.not_eligible (some watch),
    )
    else cancel_now s id watch (some r) now

unfoldable pub cancel_if_active : Repo → String → ℕ → Repo × TransitionResult
unfolding cancel_known
cancel_if_active s id now = elim (get s.watches id) [
  | none ↦ (s, refuse TransitionStatus.unknown none)
  | some watch ↦
      if is_terminal watch.status
      then (s, refuse TransitionStatus.noop (some watch))
      else cancel_known s id watch (get s.runtimes id) now
]

-- A caller's expected revision fences only where there is a sidecar to compare it with.
abbrev pub revision_moved : Option ℕ → Option WatchRuntime → Bool
revision_moved expected runtime =
    is_some_and expected (λ e. is_some_and runtime (λ r. not (r.revision == e)))

module _ (sha1_hex : String → String) where
  expire_now : Repo → String → Watch → Option WatchRuntime → ℕ → Repo × TransitionResult
  expire_now s id watch runtime now =
      let done = finish_as WatchStatus.expired watch now in
      let issued =
        issue_event sha1_hex (apply_terminal s id done runtime now) id WatchStatus.expired
          (next_revision runtime) in
      (
        issued.0,
        record {
          status = TransitionStatus.applied;
          watch = some done;
          event_id = issued.1;
          revision = some (next_revision runtime);
        },
      )

  expire_known :
      Repo → String → Option ℕ → Bool → Watch → Option WatchRuntime → ℕ → Repo × TransitionResult
  unfolding expire_now
  expire_known s id expected force watch runtime now =
      if is_terminal watch.status
      then (s, refuse TransitionStatus.noop (some watch))
      else if revision_moved expected runtime
      then (s, refuse TransitionStatus.fenced none)
      else if not force && not (is_exhausted watch now)
      then (s, refuse TransitionStatus.not_eligible (some watch))
      else expire_now s id watch runtime now

  unfoldable pub expire_if_eligible : Repo → String → Option ℕ → Bool → ℕ → Repo × TransitionResult
  unfolding expire_known
  expire_if_eligible s id expected force now = elim (get s.watches id) [
    | none ↦ (s, refuse TransitionStatus.unknown none)
    | some watch ↦ expire_known s id expected force watch (get s.runtimes id) now
  ]
