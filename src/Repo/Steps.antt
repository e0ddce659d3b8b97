-- ===== src/Repo/Steps.antt =====
-- The atomic surface as one step function, so that any interleaving of workers, dispatchers,
-- sweeps and requests is a list of operations, each with the instant of its clock reading. The
-- plain `save` is not among them: it is the unfenced write of the legacy path.
use dibs_reservation_sniper.Prelude.{ℕ, ◌≡◌, ◌≢◌, String, Bool, true, Option, none, List, [], ◌∷◌}
use dibs_reservation_sniper.Model.{
  Watch, is_active, WatchRuntime, ScheduleMarker, WindowClaim, DispatchClaim,
}
use dibs_reservation_sniper.Repo.State.{Repo}
use dibs_reservation_sniper.Repo.Claims.{
  create_with_schedule, claim_window, begin_booking, commit_window, release_claim,
}
use dibs_reservation_sniper.Repo.Transitions.{cancel_if_active, expire_if_eligible}
use dibs_reservation_sniper.Repo.Dispatch.{claim_dispatch, mark_dispatched, release_dispatch}
use dibs_reservation_sniper.Repo.Documents
use dibs_reservation_sniper.Repo.Recovery.{cleanup_due, prune_index_member, synthesize_marker}

pub data Op : Type 0 where
  create : Watch → WatchRuntime → Op
  claim : String → String → String → ℕ → Bool → Op
  begin : WindowClaim → Op
  commit : WindowClaim → Watch → WatchRuntime → ℕ → Op
  release : WindowClaim → Op
  cancel : String → Op
  expire : String → Option ℕ → Bool → Op
  claim_publication : ScheduleMarker → String → ℕ → Op
  mark : DispatchClaim → ℕ → Op
  release_publication : DispatchClaim → Op
  delete : String → Op
  cleanup : ℕ → Op
  prune : String → Bool → Op
  synthesize : String → WatchRuntime → Op

module _ (sha1_hex : String → String) where
  -- The state after an operation at an instant, and the terminal event that it issued.
  unfoldable pub step : Repo → ℕ × Op → Repo × Option String
  step s (now, create w r) = ((create_with_schedule s w r).0, none)
  step s (now, claim id window_id owner_id lease ignore_schedule) =
      ((claim_window s id window_id owner_id lease ignore_schedule now).0, none)
  step s (now, begin c) = ((begin_booking s c now).0, none)
  step s (now, commit c w r later) =
      let (s', result) = commit_window sha1_hex s c w r now later in (s', result.event_id)
  step s (now, release c) = ((release_claim s c).0, none)
  step s (now, cancel id) = let (s', result) = cancel_if_active s id now in (s', result.event_id)
  step s (now, expire id expected force) =
      let (s', result) = expire_if_eligible sha1_hex s id expected force now in
      (s', result.event_id)
  step s (now, claim_publication m owner_id lease) =
      ((claim_dispatch s m owner_id lease now).0, none)
  step s (now, mark c redispatch_after) = ((mark_dispatched s c redispatch_after).0, none)
  step s (now, release_publication c) = ((release_dispatch s c).0, none)
  step s (now, delete id) = ((Documents.delete s id).0, none)
  step s (now, cleanup batch_size) = ((cleanup_due s now batch_size).0, none)
  step s (now, prune id from_all) = (prune_index_member s id from_all, none)
  step s (now, synthesize id r) = ((synthesize_marker s id r now).0, none)

  unfoldable pub run : Repo → List (ℕ × Op) → Repo
  run s [] = s
  run s (o ∷ os) = run (step s o).0 os

-- New watches are active, as those of `WatchService.create` are.
abbrev pub CreatesActive : ℕ × Op → Type 0
CreatesActive (now, create w r) = is_active w.status ≡ true
CreatesActive _ = Unit {0}

-- Ids are random UUIDs: none is made twice.
abbrev pub CreatesOther : String → ℕ × Op → Type 0
CreatesOther id (now, create w r) = w.watch_id ≢ id
CreatesOther id _ = Unit {0}

abbrev pub AllOps : (ℕ × Op → Type 0) → List (ℕ × Op) → Type 0
AllOps P [] = Unit {0}
AllOps P (o ∷ os) = P o × AllOps P os

module _ (sha1_hex : String → String) (P : Repo → Type 0) (Q : ℕ × Op → Type 0) where
  -- What every allowed step keeps, every run of allowed steps keeps.
  pub run_keeps :
      ((s : Repo) (o : ℕ × Op) → Q o → P s → P (step sha1_hex s o).0)
      → (s : Repo) (os : List (ℕ × Op)) → AllOps Q os
      → P s
      → P (run sha1_hex s os)
  unfolding run
  run_keeps keep s [] q p = p
  run_keeps keep s (o ∷ os) q p = run_keeps keep (step sha1_hex s o).0 os q.1 (keep s o q.0 p)
