-- ===== src/Repo/Final/Keeps.antt =====
-- No operation of the atomic surface changes a finished watch, but by removing it, after which
-- only a second creation of the id would bring the id back.
use dibs_reservation_sniper.Prelude.{ℕ, ◌≢◌, String, Bool, Option, [], ◌∷◌, arith, take, sort_by}
use dibs_reservation_sniper.Dict.{Dict}
use dibs_reservation_sniper.Model.{Watch, WatchRuntime, WindowClaim, ScheduleMarker}
use dibs_reservation_sniper.Repo.State.{Repo, set_marker, apply_terminal, issue_event}
use dibs_reservation_sniper.Repo.Claims.{
  claim_window, grant_claim, begin_booking, commit_window, create_with_schedule, release_claim,
}
use dibs_reservation_sniper.Repo.Transitions.{cancel_if_active, expire_if_eligible}
use dibs_reservation_sniper.Repo.Dispatch.{claim_dispatch, mark_dispatched, release_dispatch}
use dibs_reservation_sniper.Repo.Documents
use dibs_reservation_sniper.Repo.Documents.{forget}
use dibs_reservation_sniper.Repo.Recovery.{
  due_ids, cleanup_one, cleanup_all, cleanup_due, prune_index_member, synthesize_marker,
}
use dibs_reservation_sniper.Repo.Steps
use dibs_reservation_sniper.Repo.Steps.{
  Op, create, claim, begin, commit, release, cancel, expire, claim_publication, mark,
  release_publication, cleanup, prune, synthesize, step, CreatesOther,
}
use dibs_reservation_sniper.Repo.Final.{IsFinal, final_rules}

module _ (w : Watch) (j : String) where
  create-IsFinal :
      (s : Repo) (v : Watch) (r : WatchRuntime)
      → v.watch_id ≢ j
      → IsFinal w j s
      → IsFinal w j (create_with_schedule s v r).0
  unfolding create_with_schedule set_marker
  create-IsFinal s v r q h = grind final_rules

  claim-IsFinal :
      (s : Repo) (id win own : String) (lease : ℕ) (ig : Bool) (now : ℕ)
      → IsFinal w j s
      → IsFinal w j (claim_window s id win own lease ig now).0
  unfolding claim_window grant_claim
  claim-IsFinal s id win own lease ig now h = grind final_rules

  begin-IsFinal :
      (s : Repo) (c : WindowClaim) (now : ℕ) → IsFinal w j s → IsFinal w j (begin_booking s c now).0
  unfolding begin_booking
  begin-IsFinal s c now h = grind final_rules

  release-IsFinal : (s : Repo) (c : WindowClaim) → IsFinal w j s → IsFinal w j (release_claim s c).0
  unfolding release_claim
  release-IsFinal s c h = grind final_rules

  cancel-IsFinal :
      (s : Repo) (id : String) (now : ℕ) → IsFinal w j s → IsFinal w j (cancel_if_active s id now).0
  unfolding cancel_if_active apply_terminal
  cancel-IsFinal s id now h = grind final_rules

  commit-IsFinal :
      (sha1_hex : String → String) (s : Repo) (c : WindowClaim) (v : Watch) (r : WatchRuntime)
      (now later : ℕ)
      → IsFinal w j s
      → IsFinal w j (commit_window sha1_hex s c v r now later).0
  unfolding commit_window issue_event set_marker
  commit-IsFinal sha1_hex s c v r now later h = grind final_rules

  expire-IsFinal :
      (sha1_hex : String → String) (s : Repo) (id : String) (expected : Option ℕ) (force : Bool)
      (now : ℕ)
      → IsFinal w j s
      → IsFinal w j (expire_if_eligible sha1_hex s id expected force now).0
  unfolding expire_if_eligible issue_event apply_terminal
  expire-IsFinal sha1_hex s id expected force now h = grind final_rules

  publication-IsFinal :
      (s : Repo) (m : ScheduleMarker) (own : String) (lease now : ℕ)
      → IsFinal w j s
      → IsFinal w j (claim_dispatch s m own lease now).0
  unfolding claim_dispatch
  publication-IsFinal s m own lease now h = ground arith

  forget-IsFinal : (s : Repo) (id : String) → IsFinal w j s → IsFinal w j (forget s id)
  unfolding forget
  forget-IsFinal s id h = grind final_rules

  cleanup-IsFinal :
      (s : Repo) (n : ℕ) (due : Dict ℕ) → IsFinal w j s → IsFinal w j (cleanup_all s n due).0
  unfolding cleanup_all cleanup_one
  cleanup-IsFinal s n [] h = h
  cleanup-IsFinal s n ((id, d) ∷ due) h =
      cleanup-IsFinal (cleanup_one s id).0 _ due (ground (arith, h, forget-IsFinal s id h))

  prune-IsFinal :
      (s : Repo) (id : String) (from_all : Bool)
      → IsFinal w j s
      → IsFinal w j (prune_index_member s id from_all)
  unfolding prune_index_member
  prune-IsFinal s id from_all h = grind final_rules

  synthesize-IsFinal :
      (s : Repo) (id : String) (r : WatchRuntime) (now : ℕ)
      → IsFinal w j s
      → IsFinal w j (synthesize_marker s id r now).0
  unfolding synthesize_marker set_marker
  synthesize-IsFinal s id r now h = grind final_rules

  pub step-IsFinal :
      (sha1_hex : String → String) (s : Repo) (o : ℕ × Op)
      → CreatesOther j o
      → IsFinal w j s
      → IsFinal w j (step sha1_hex s o).0
  unfolding step mark_dispatched release_dispatch Documents.delete cleanup_due
  step-IsFinal sha1_hex s (now, create v r) q h = create-IsFinal s v r q h
  step-IsFinal sha1_hex s (now, claim id window_id owner_id lease ignore_schedule) q h =
      claim-IsFinal s id window_id owner_id lease ignore_schedule now h
  step-IsFinal sha1_hex s (now, begin c) q h = begin-IsFinal s c now h
  step-IsFinal sha1_hex s (now, commit c v r later) q h =
      commit-IsFinal sha1_hex s c v r now later h
  step-IsFinal sha1_hex s (now, release c) q h = release-IsFinal s c h
  step-IsFinal sha1_hex s (now, cancel id) q h = cancel-IsFinal s id now h
  step-IsFinal sha1_hex s (now, expire id expected force) q h =
      expire-IsFinal sha1_hex s id expected force now h
  step-IsFinal sha1_hex s (now, claim_publication m owner_id lease) q h =
      publication-IsFinal s m owner_id lease now h
  step-IsFinal sha1_hex s (now, mark c redispatch_after) q h = ground arith
  step-IsFinal sha1_hex s (now, release_publication c) q h = ground arith
  step-IsFinal sha1_hex s (now, Steps.delete id) q h = forget-IsFinal s id h
  step-IsFinal sha1_hex s (now, cleanup batch_size) q h =
      cleanup-IsFinal s 0 (take batch_size (sort_by (λ e. e.1) (due_ids now s.terminal_delete_at)))
        h
  step-IsFinal sha1_hex s (now, prune id from_all) q h = prune-IsFinal s id from_all h
  step-IsFinal sha1_hex s (now, synthesize id r) q h = synthesize-IsFinal s id r now h
