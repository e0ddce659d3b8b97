-- ===== src/Dispatcher/Sweep.antt =====
-- One sweep over the due markers. The queue is a parameter: publishing is an await, so it may
-- change the store, and it says whether it succeeded.
use Prim.Native.String.{◌++◌ as str_append}
use dibs_reservation_sniper.Prelude.{
  ℕ, ◌+◌, ◌-◌, max, String, Bool, none, some, List, [], ◌∷◌, length, if◌then◌else◌,
}
use dibs_reservation_sniper.Text.{numbered}
use dibs_reservation_sniper.Model.{ScheduleMarker, DispatchClaim}
use dibs_reservation_sniper.Repo.{
  Repo, due_schedule_markers, claim_dispatch, mark_dispatched, release_dispatch,
}

pub record Publish : Type 0 where
  pub watch_id : String
  pub window_id : String
  pub delay : ℕ
  pub due_at : ℕ
  pub task_id : String

pub data Outcome : Type 0 where
  dispatched deferred failed : Outcome

pub record DispatchSweepResult : Type 0 where
  pub considered : ℕ
  pub dispatched : ℕ
  pub deferred : ℕ
  pub failed : ℕ

pub record DispatcherSettings : Type 0 where
  pub owner_id : String
  pub horizon : ℕ
  pub lease : ℕ
  pub recovery_grace : ℕ
  pub batch_size : ℕ

unfoldable pub task_id : DispatchClaim → String
task_id claim = numbered (str_append "dibs-poll:" claim.window_id) claim.generation

module _ (enqueue : Repo → Publish → Repo × Bool) (settings : DispatcherSettings) where
  -- Publishing under a lease that was granted.
  unfoldable pub publish_claimed : Repo → ScheduleMarker → DispatchClaim → ℕ → Repo × Outcome
  publish_claimed s marker claim now =
      let (s', sent) = enqueue s (record {
        watch_id = marker.watch_id;
        window_id = marker.window_id;
        delay = marker.scheduled_for - now;
        due_at = marker.scheduled_for;
        task_id = task_id claim;
      }) in
      if sent
      then (
        (mark_dispatched s' claim (max marker.scheduled_for now + settings.recovery_grace)).0,
        Outcome.dispatched,
      )
      else ((release_dispatch s' claim).0, Outcome.failed)

  -- `_dispatch_one`: `now` is the sweep's reading of the clock, `claimed_at` the store's. A refused
  -- claim carries no proof, and a granted one always does.
  unfoldable pub dispatch_one : Repo → ScheduleMarker → ℕ → ℕ → Repo × Outcome
  unfolding publish_claimed
  dispatch_one s marker now claimed_at =
      let (s', result) = claim_dispatch s marker settings.owner_id settings.lease claimed_at in
      elim result.claim [
        | none ↦ (s', Outcome.deferred)
        | some claim ↦ publish_claimed s' marker claim now
      ]

  unfoldable pub count : Outcome → DispatchSweepResult → DispatchSweepResult
  count Outcome.dispatched r = record r { dispatched = r.dispatched + 1 }
  count Outcome.deferred r = record r { deferred = r.deferred + 1 }
  count Outcome.failed r = record r { failed = r.failed + 1 }

  -- The loop, with the store's readings of the clock by the markers that are left.
  unfoldable pub dispatch_all :
      Repo → List ScheduleMarker → ℕ → (ℕ → ℕ) → DispatchSweepResult → Repo × DispatchSweepResult
  unfolding dispatch_one count
  dispatch_all s [] now readings r = (s, r)
  dispatch_all s (marker ∷ markers) now readings r =
      let (s', outcome) = dispatch_one s marker now (readings (length markers)) in
      dispatch_all s' markers now readings (count outcome r)

  unfoldable pub dispatch_due : Repo → ℕ → (ℕ → ℕ) → Repo × DispatchSweepResult
  unfolding dispatch_all
  dispatch_due s now readings =
      let markers = due_schedule_markers s now settings.horizon settings.batch_size in
      dispatch_all s markers now readings
        (record { considered = length markers; dispatched = 0; deferred = 0; failed = 0 })
