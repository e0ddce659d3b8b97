-- ===== src/Service/Create.antt =====
-- Creating a watch, and the cancellations and expiries that come from outside a poll.
use dibs_reservation_sniper.Prelude.{
  ℕ, String, Bool, true, false, ◌&&◌, ◌||◌, ◌==◌, ltb, Option, none, some, [], if◌then◌else◌,
}
use dibs_reservation_sniper.Model.{
  WatchStatus, Watch, WatchRuntime, AvailabilityQuery, IsoDate, default_expiry, initial_runtime,
  TransitionStatus, TransitionResult,
}
use dibs_reservation_sniper.Repo.{create_with_schedule, cancel_if_active, expire_if_eligible}
use dibs_reservation_sniper.Policy.{AvailabilityPolicy, derive}
use dibs_reservation_sniper.Service.Env.{
  World, Settings, WatchEvent, record_history, notify, publish,
}
use dibs_reservation_sniper.Service.Commit.{committed_or}

-- Days order as their year, month and day do.
unfoldable pub date_before : IsoDate → IsoDate → Bool
date_before a b =
    ltb a.year b.year
    || (a.year == b.year && (ltb a.month b.month || (a.month == b.month && ltb a.day b.day)))

pub data CreateOutcome : Type 0 where
  created : Watch → CreateOutcome
  past_date : CreateOutcome
  ownership_unavailable : CreateOutcome
  -- the policy's `ValueError`
  no_ceiling : CreateOutcome

-- Whether the durable projection is there, and whether it takes the ownership record.
pub data Recorder : Type 0 where
  absent failing recording : Recorder

unfoldable pub new_watch : String → AvailabilityQuery → Bool → ℕ → ℕ → AvailabilityPolicy → Watch
new_watch watch_id query auto_book now expires_at policy = record {
  watch_id = watch_id;
  status = WatchStatus.active;
  query = query;
  auto_book = auto_book;
  created_at = now;
  updated_at = now;
  expires_at = expires_at;
  attempts = 0;
  max_attempts = policy.effective_attempts;
  last_checked_at = none;
  next_check_at = some now;
  found_slots = [];
  booking = none;
  last_error = none;
}

unfoldable pub describe_policy : Settings → Watch → Option AvailabilityPolicy
describe_policy settings watch =
    derive settings.schedule watch.created_at watch.expires_at watch.max_attempts

-- An unknown watch has nothing to show.
abbrev shown : TransitionStatus → Option Watch → Option Watch
shown TransitionStatus.unknown watch = none
shown _ watch = watch

module _ {A : Type 0} where
  -- Storing and publishing, once any account ownership has been recorded.
  create_stored : World A → Watch → WatchRuntime → Bool → ℕ → World A × CreateOutcome
  create_stored w watch runtime owned now =
      let (repo, result) = create_with_schedule w.repo watch runtime in
      let stored = committed_or result.watch watch in
      let w1 : World A = record w { repo = repo } in
      let w2 = if owned then w1 else record_history w1 stored (some 0) in
      (publish w2 stored.watch_id runtime.window_id 0 (some now), created stored)

  create_owned : World A → Watch → WatchRuntime → Bool → Recorder → ℕ → World A × CreateOutcome
  unfolding create_stored
  create_owned w watch runtime false recorder now = create_stored w watch runtime false now
  create_owned w watch runtime true absent now = (w, ownership_unavailable)
  create_owned w watch runtime true failing now = (w, ownership_unavailable)
  create_owned w watch runtime true recording now =
      create_stored (record_history w watch (some 0)) watch runtime true now

  -- `create`: `watch_id` is the fresh UUID's, `owned` is whether there is a `user_id`.
  module _ (midnight_after : IsoDate → ℕ) (local_date : ℕ → IsoDate) (settings : Settings) where
    unfoldable pub create :
        World A → String → AvailabilityQuery → Bool → Bool → Recorder → ℕ → World A × CreateOutcome
    unfolding create_owned
    create w watch_id query auto_book owned recorder now =
        let expires_at = default_expiry midnight_after query now in
        if date_before query.date (local_date now)
        then (w, past_date)
        else elim (derive settings.schedule now expires_at settings.max_attempts) [
          | none ↦ (w, no_ceiling)
          | some policy ↦
              let watch = new_watch watch_id query auto_book now expires_at policy in
              create_owned w watch
                (initial_runtime watch policy.required_attempts policy.supports_deadline none) owned
                recorder now
        ]

  record_if_applied : World A → TransitionResult → World A
  record_if_applied w result = elim result.status [
    | TransitionStatus.applied ↦ elim result.watch [
      | none ↦ w
      | some watch ↦ record_history w watch result.revision
    ]
    | _ ↦ w
  ]

  -- `cancel`
  unfoldable pub cancel : World A → String → ℕ → World A × Option Watch
  unfolding record_if_applied
  cancel w id now =
      let (repo, result) = cancel_if_active w.repo id now in
      (record_if_applied (record w { repo = repo }) result, shown result.status result.watch)

  announce_expiry : World A → TransitionResult → World A
  announce_expiry w result = elim result.status [
    | TransitionStatus.applied ↦ elim result.watch [
      | none ↦ w
      | some watch ↦ elim result.event_id [
        | none ↦ w
        | some event_id ↦ notify w watch WatchEvent.expired
      ]
    ]
    | _ ↦ w
  ]

  -- `expire`
  unfoldable pub expire : (String → String) → World A → String → ℕ → World A × TransitionResult
  unfolding record_if_applied announce_expiry
  expire sha1_hex w id now =
      let (repo, result) = expire_if_eligible sha1_hex w.repo id none false now in
      (announce_expiry (record_if_applied (record w { repo = repo }) result) result, result)
