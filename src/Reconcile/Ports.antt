-- ===== src/Reconcile/Ports.antt =====
-- What the coordinator calls, over any state. Each call may raise, which is `none`, and may change
-- the state even then.
use dibs_reservation_sniper.Prelude.{ℕ, String, Bool, Option, List}
use dibs_reservation_sniper.Model.{WatchRuntime, RecoveryCandidate, TransitionStatus, CleanupResult}
use dibs_reservation_sniper.Dispatcher.{DispatchSweepResult}

-- The clock of the expiry, and of the repair, is that of the store.
pub record Ports (S : Type 0) : Type 0 where
  pub renew_leadership : S → String → ℕ → S × Option Bool
  pub acquire_leadership : S → String → ℕ → S × Option Bool
  pub release_leadership : S → String → S × Option Bool
  pub list_recovery_candidates : S → S × Option (List RecoveryCandidate)
  pub prune_index_member : S → String → Bool → S × Option (Unit {0})
  pub expire : S → String → S × Option TransitionStatus
  pub synthesize_marker : S → String → WatchRuntime → S × Option Bool
  pub dispatch_due : S → S × Option DispatchSweepResult
  pub cleanup_due : S → ℕ → ℕ → S × Option CleanupResult
  pub cleanup_mock : Option (S → ℕ → ℕ → S × Option (Unit {0}))

pub record CoordinatorSettings : Type 0 where
  pub owner_id : String
  pub distributed : Bool
  pub leader_lease : ℕ
  pub earliest_delay : ℕ
  pub cleanup_batch_size : ℕ
