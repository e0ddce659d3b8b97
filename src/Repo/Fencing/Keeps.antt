-- ===== src/Repo/Fencing/Keeps.antt =====
-- Once a token is fenced out, no operation of the atomic surface brings it back, but for a second
-- creation of the same id.
use dibs_reservation_sniper.Prelude.{ℕ, ◌≢◌, String, Bool, Option, [], ◌∷◌, arith, take, sort_by}
use dibs_reservation_sniper.Dict.{Dict}
use dibs_reservation_sniper.Model.{Watch, WatchRuntime, WindowClaim, ScheduleMarker}
use dibs_reservation_sniper.Repo.State.{Repo, set_marker, apply_terminal, issue_event}
use dibs_reservation_sniper.Repo.Claims.{
  claim_window, grant_claim, begin_booking, commit_window, create_with_schedule, release_claim,
}
use dibs_reservation_sniper.Repo.Transitions.{cancel_if_active, expire_if_eligible}
use dibs_reservation_sniper.Repo.Dispatch.{claim_dispatch, mark_dispatched, release_dispatch}
use dibs_reservation_sniper.Repo.Documents
use dibs_reservation_sniper.Repo.Documents.{forget}
use dibs_reservation_sniper.Repo.Recovery.{
  due_ids, cleanup_one, cleanup_all, cleanup_due, prune_index_member, synthesize_marker,
}
use dibs_reservation_sniper.Repo.Steps
use dibs_reservation_sniper.Repo.Steps.{
  Op, create, claim, begin, commit, release, cancel, expire, claim_publication, mark,
  release_publication, cleanup, prune, synthesize, step, CreatesOther,
}
use dibs_reservation_sniper.Repo.Fencing.{IsFenced, fence_rules}

module _ (t u : ℕ) (j : String) where
  create-IsFenced :
      (s : Repo) (w : Watch) (r : WatchRuntime)
      → w.watch_id ≢ j
      → IsFenced t u j s
      → IsFenced t u j (create_with_schedule s w r).0
  unfolding create_with_schedule set_marker
  create-IsFenced s w r q h = grind fence_rules

  claim-IsFenced :
      (s : Repo) (id win own : String) (lease : ℕ) (ig : Bool) (now : ℕ)
      → IsFenced t u j s
      → IsFenced t u j (claim_window s id win own lease ig now).0
  unfolding claim_window grant_claim
  claim-IsFenced s id win own lease ig now h = grind fence_rules

  begin-IsFenced :
      (s : Repo) (c : WindowClaim) (now : ℕ)
      → IsFenced t u j s
      → IsFenced t u j (begin_booking s c now).0
  unfolding begin_booking
  begin-IsFenced s c now h = grind fence_rules

  release-IsFenced :
      (s : Repo) (c : WindowClaim) → IsFenced t u j s → IsFenced t u j (release_claim s c).0
  unfolding release_claim
  release-IsFenced s c h = grind fence_rules

  cancel-IsFenced :
      (s : Repo) (id : String) (now : ℕ)
      → IsFenced t u j s
      → IsFenced t u j (cancel_if_active s id now).0
  unfolding cancel_if_active apply_terminal
  cancel-IsFenced s id now h = grind fence_rules

  commit-IsFenced :
      (sha1_hex : String → String) (s : Repo) (c : WindowClaim) (w : Watch) (r : WatchRuntime)
      (now later : ℕ)
      → IsFenced t u j s
      → IsFenced t u j (commit_window sha1_hex s c w r now later).0
  unfolding commit_window issue_event set_marker
  commit-IsFenced sha1_hex s c w r now later h = grind fence_rules

  expire-IsFenced :
      (sha1_hex : String → String) (s : Repo) (id : String) (expected : Option ℕ) (force : Bool)
      (now : ℕ)
      → IsFenced t u j s
      → IsFenced t u j (expire_if_eligible sha1_hex s id expected force now).0
  unfolding expire_if_eligible issue_event apply_terminal
  expire-IsFenced sha1_hex s id expected force now h = grind fence_rules

  publication-IsFenced :
      (s : Repo) (m : ScheduleMarker) (own : String) (lease now : ℕ)
      → IsFenced t u j s
      → IsFenced t u j (claim_dispatch s m own lease now).0
  unfolding claim_dispatch
  publication-IsFenced s m own lease now h = ground arith

  forget-IsFenced : (s : Repo) (id : String) → IsFenced t u j s → IsFenced t u j (forget s id)
  unfolding forget
  forget-IsFenced s id h = grind fence_rules

  cleanup-IsFenced :
      (s : Repo) (n : ℕ) (due : Dict ℕ) → IsFenced t u j s → IsFenced t u j (cleanup_all s n due).0
  unfolding cleanup_all cleanup_one
  cleanup-IsFenced s n [] h = h
  cleanup-IsFenced s n ((id, d) ∷ due) h =
      cleanup-IsFenced (cleanup_one s id).0 _ due (ground (arith, h, forget-IsFenced s id h))

  prune-IsFenced :
      (s : Repo) (id : String) (from_all : Bool)
      → IsFenced t u j s
      → IsFenced t u j (prune_index_member s id from_all)
  unfolding prune_index_member
  prune-IsFenced s id from_all h = grind fence_rules

  synthesize-IsFenced :
      (s : Repo) (id : String) (r : WatchRuntime) (now : ℕ)
      → IsFenced t u j s
      → IsFenced t u j (synthesize_marker s id r now).0
  unfolding synthesize_marker set_marker
  synthesize-IsFenced s id r now h = grind fence_rules

  pub step-IsFenced :
      (sha1_hex : String → String) (s : Repo) (o : ℕ × Op)
      → CreatesOther j o
      → IsFenced t u j s
      → IsFenced t u j (step sha1_hex s o).0
  unfolding step mark_dispatched release_dispatch Documents.delete cleanup_due
  step-IsFenced sha1_hex s (now, create w r) q h = create-IsFenced s w r q h
  step-IsFenced sha1_hex s (now, claim id window_id owner_id lease ignore_schedule) q h =
      claim-IsFenced s id window_id owner_id lease ignore_schedule now h
  step-IsFenced sha1_hex s (now, begin c) q h = begin-IsFenced s c now h
  step-IsFenced sha1_hex s (now, commit c w r later) q h =
      commit-IsFenced sha1_hex s c w r now later h
  step-IsFenced sha1_hex s (now, release c) q h = release-IsFenced s c h
  step-IsFenced sha1_hex s (now, cancel id) q h = cancel-IsFenced s id now h
  step-IsFenced sha1_hex s (now, expire id expected force) q h =
      expire-IsFenced sha1_hex s id expected force now h
  step-IsFenced sha1_hex s (now, claim_publication m owner_id lease) q h =
      publication-IsFenced s m owner_id lease now h
  step-IsFenced sha1_hex s (now, mark c redispatch_after) q h = ground arith
  step-IsFenced sha1_hex s (now, release_publication c) q h = ground arith
  step-IsFenced sha1_hex s (now, Steps.delete id) q h = forget-IsFenced s id h
  step-IsFenced sha1_hex s (now, cleanup batch_size) q h =
      cleanup-IsFenced s 0 (take batch_size (sort_by (λ e. e.1) (due_ids now s.terminal_delete_at)))
        h
  step-IsFenced sha1_hex s (now, prune id from_all) q h = prune-IsFenced s id from_all h
  step-IsFenced sha1_hex s (now, synthesize id r) q h = synthesize-IsFenced s id r now h
