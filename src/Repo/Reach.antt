-- ===== src/Repo/Reach.antt =====
-- Every store that the atomic surface can reach is coherent.
use dibs_reservation_sniper.Prelude.{ℕ, String, arith, List}
use dibs_reservation_sniper.Dict.{get}
use dibs_reservation_sniper.Repo.State.{Repo, new_repo}
use dibs_reservation_sniper.Repo.Steps
use dibs_reservation_sniper.Repo.Steps.{
  Op, create, claim, begin, commit, release, cancel, expire, claim_publication, mark,
  release_publication, cleanup, prune, synthesize, step, run, CreatesActive, AllOps, run_keeps,
}
use dibs_reservation_sniper.Repo.Coherent.{IsCoherent}
use dibs_reservation_sniper.Repo.Coherent.Claims
use dibs_reservation_sniper.Repo.Coherent.Repairs

new_repo-IsCoherent : (retention : ℕ) (j : String) → IsCoherent (new_repo retention) j
unfolding new_repo get
new_repo-IsCoherent retention j = ground arith

module _ (sha1_hex : String → String) where
  step-IsCoherent :
      (s : Repo) (j : String) (o : ℕ × Op)
      → CreatesActive o
      → IsCoherent s j
      → IsCoherent (step sha1_hex s o).0 j
  unfolding step
  step-IsCoherent s j (now, create w r) q h = Claims.create_with_schedule-IsCoherent s j w r q h
  step-IsCoherent s j (now, claim id window_id owner_id lease ignore_schedule) q h =
      Claims.claim_window-IsCoherent s j id window_id owner_id lease ignore_schedule now h
  step-IsCoherent s j (now, begin c) q h = Claims.begin_booking-IsCoherent s j c now h
  step-IsCoherent s j (now, commit c w r later) q h =
      Claims.commit_window-IsCoherent sha1_hex s j c w r now later h
  step-IsCoherent s j (now, release c) q h = Claims.release_claim-IsCoherent s j c h
  step-IsCoherent s j (now, cancel id) q h = Claims.cancel_if_active-IsCoherent s j id now h
  step-IsCoherent s j (now, expire id expected force) q h =
      Claims.expire_if_eligible-IsCoherent sha1_hex s j id expected force now h
  step-IsCoherent s j (now, claim_publication m owner_id lease) q h =
      Repairs.claim_dispatch-IsCoherent s j m owner_id lease now h
  step-IsCoherent s j (now, mark c redispatch_after) q h =
      Repairs.mark_dispatched-IsCoherent s j c redispatch_after h
  step-IsCoherent s j (now, release_publication c) q h = Repairs.release_dispatch-IsCoherent s j c h
  step-IsCoherent s j (now, Steps.delete id) q h = Repairs.delete-IsCoherent s j id h
  step-IsCoherent s j (now, cleanup batch_size) q h =
      Repairs.cleanup_due-IsCoherent s j now batch_size h
  step-IsCoherent s j (now, prune id from_all) q h =
      Repairs.prune_index_member-IsCoherent s j id from_all h
  step-IsCoherent s j (now, synthesize id r) q h =
      Repairs.synthesize_marker-IsCoherent s j id r now h

  -- From an empty store, after any operations in any order whose new watches are active, the
  -- entries of every id fit together: document, sidecar and fence are there or not together; a
  -- claim is held on an active watch only, under a number that its fence has reached; a publication
  -- lease is held on an active watch or outlives a document that is gone, never on a finished one,
  -- and its generation is one that was given out; a marker is that of an active watch's sidecar; and of the stored watches exactly
  -- the finished ones have a retention deadline.
  pub run-IsCoherent :
      (retention : ℕ) (os : List (ℕ × Op)) (j : String)
      → AllOps CreatesActive os
      → IsCoherent (run sha1_hex (new_repo retention) os) j
  run-IsCoherent retention os j q =
      run_keeps sha1_hex (λ s. IsCoherent s j) CreatesActive (λ s o. step-IsCoherent s j o)
        (new_repo retention) os q (new_repo-IsCoherent retention j)
