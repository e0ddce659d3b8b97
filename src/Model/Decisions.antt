-- ===== src/Model/Decisions.antt =====
-- backend/db/repositories/watch_decisions.py: what the repository's operations return.
use dibs_reservation_sniper.Prelude.{ℕ, String, Bool, Option}
use dibs_reservation_sniper.Model.Watches.{Watch}
use dibs_reservation_sniper.Model.Runtime.{WatchRuntime}

pub data CreateStatus : Type 0 where
  created already_exists : CreateStatus

pub record CreateResult : Type 0 where
  pub status : CreateStatus
  pub watch : Option Watch
  pub runtime : Option WatchRuntime

pub data ClaimStatus : Type 0 where
  owned busy early stale terminal unknown : ClaimStatus

pub record WindowClaim : Type 0 where
  pub watch : Watch
  pub runtime : WatchRuntime
  pub owner_id : String
  pub window_id : String
  pub token : ℕ
  pub lease_expires_at : ℕ

pub record ClaimResult : Type 0 where
  pub status : ClaimStatus
  pub claim : Option WindowClaim

pub data BookingPermitStatus : Type 0 where
  granted cancelled fenced : BookingPermitStatus

pub record BookingPermit : Type 0 where
  pub status : BookingPermitStatus
  pub permit_id : Option String

pub data CommitStatus : Type 0 where
  committed fenced terminal unknown : CommitStatus

pub record CommitResult : Type 0 where
  pub status : CommitStatus
  pub watch : Option Watch
  pub event_id : Option String

pub data TransitionStatus : Type 0 where
  applied noop not_eligible fenced unknown : TransitionStatus

-- A revision of -1, where the source has no transition to number, is `none`.
pub record TransitionResult : Type 0 where
  pub status : TransitionStatus
  pub watch : Option Watch
  pub event_id : Option String
  pub revision : Option ℕ

pub record ScheduleMarker : Type 0 where
  pub watch_id : String
  pub window_id : String
  pub scheduled_for : ℕ

pub data DispatchStatus : Type 0 where
  claimed busy stale : DispatchStatus

pub record DispatchClaim : Type 0 where
  pub watch_id : String
  pub window_id : String
  pub scheduled_for : ℕ
  pub owner_id : String
  pub generation : ℕ
  pub lease_expires_at : ℕ

pub record DispatchResult : Type 0 where
  pub status : DispatchStatus
  pub claim : Option DispatchClaim

pub record RecoveryCandidate : Type 0 where
  pub watch_id : String
  pub watch : Option Watch
  pub runtime : Option WatchRuntime
  pub has_marker : Bool
  pub has_live_claim : Bool

pub record CleanupResult : Type 0 where
  pub removed : ℕ
  pub remaining : Bool
