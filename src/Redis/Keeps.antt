-- ===== src/Redis/Keeps.antt =====
-- The calls of a watch's life keep the in-memory store's entries tied to one another.
use dibs_reservation_sniper.Prelude.{ℕ, ◌≡◌, String, Bool, Option}
use dibs_reservation_sniper.Model.{Watch, WatchRuntime, WindowClaim}
use dibs_reservation_sniper.Repo.{
  Repo, create_with_schedule, claim_window, begin_booking, commit_window, release_claim,
  cancel_if_active, expire_if_eligible, marker_of, set_marker, apply_terminal, issue_event,
  grant_claim,
}
use dibs_reservation_sniper.Repo.Coherent.{IsCoherent}
use dibs_reservation_sniper.Redis.State.{Whole}
use dibs_reservation_sniper.Redis.Tied.{IsTied, DueWhole, tied_rules}

pub create-IsTied :
    (s : Repo) (j : String) (w : Watch) (r : WatchRuntime)
    → DueWhole r.scheduled_for
    → IsCoherent s j
    → IsTied s j
    → IsTied (create_with_schedule s w r).0 j
unfolding create_with_schedule set_marker marker_of
create-IsTied s j w r d c t = grind tied_rules

pub claim-IsTied :
    (s : Repo) (j id win owner : String) (lease : ℕ) (ig : Bool) (now : ℕ)
    → Whole now
    → Whole lease
    → IsTied s j
    → IsTied (claim_window s id win owner lease ig now).0 j
unfolding claim_window grant_claim
claim-IsTied s j id win owner lease ig now p q t = grind tied_rules

pub begin-IsTied :
    (s : Repo) (j : String) (claim : WindowClaim) (now : ℕ)
    → IsTied s j
    → IsTied (begin_booking s claim now).0 j
unfolding begin_booking marker_of
begin-IsTied s j claim now t = grind tied_rules

pub release-IsTied :
    (s : Repo) (j : String) (claim : WindowClaim) → IsTied s j → IsTied (release_claim s claim).0 j
unfolding release_claim
release-IsTied s j claim t = grind tied_rules

pub cancel-IsTied :
    (s : Repo) (j id : String) (now : ℕ) → IsTied s j → IsTied (cancel_if_active s id now).0 j
unfolding cancel_if_active apply_terminal marker_of
cancel-IsTied s j id now t = grind tied_rules

module _ (sha1_hex : String → String) where
  pub commit-IsTied :
      (s : Repo) (j : String) (claim : WindowClaim) (w : Watch) (r : WatchRuntime) (now : ℕ)
      → w.watch_id ≡ claim.watch.watch_id
      → DueWhole r.scheduled_for
      → IsTied s j
      → IsTied (commit_window sha1_hex s claim w r now now).0 j
  unfolding commit_window issue_event set_marker marker_of
  commit-IsTied s j claim w r now e d t = grind tied_rules

  pub expire-IsTied :
      (s : Repo) (j id : String) (expected : Option ℕ) (force : Bool) (now : ℕ)
      → IsTied s j
      → IsTied (expire_if_eligible sha1_hex s id expected force now).0 j
  unfolding expire_if_eligible apply_terminal issue_event marker_of
  expire-IsTied s j id expected force now t = grind tied_rules
