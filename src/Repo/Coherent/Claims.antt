-- ===== src/Repo/Coherent/Claims.antt =====
-- Claiming, booking, committing, cancelling and expiring keep every watch's entries coherent.
use dibs_reservation_sniper.Prelude.{
  ℕ, ◌≡◌, refl, inl, inr, String, Bool, true, false, Option, arith, is_some, Option-cases,
}
use dibs_reservation_sniper.Dict.{get}
use dibs_reservation_sniper.Model.{WatchStatus, Watch, is_active, WatchRuntime, WindowClaim}
use dibs_reservation_sniper.Repo.State.{
  Repo, marker_of, set_marker, apply_terminal, next_revision, issue_event,
}
use dibs_reservation_sniper.Repo.Claims.{
  claim_window, grant_claim, begin_booking, commit_window, create_with_schedule, release_claim,
}
use dibs_reservation_sniper.Repo.Transitions.{finish_as, cancel_if_active, expire_if_eligible}
use dibs_reservation_sniper.Repo.Coherent.{IsCoherent, coherent_rules}

pub claim_window-IsCoherent :
    (s : Repo) (j id win own : String) (lease : ℕ) (ig : Bool) (now : ℕ)
    → IsCoherent s j
    → IsCoherent (claim_window s id win own lease ig now).0 j
unfolding claim_window grant_claim
claim_window-IsCoherent s j id win own lease ig now h = grind coherent_rules

pub create_with_schedule-IsCoherent :
    (s : Repo) (j : String) (w : Watch) (r : WatchRuntime)
    → is_active w.status ≡ true
    → IsCoherent s j
    → IsCoherent (create_with_schedule s w r).0 j
unfolding create_with_schedule set_marker
create_with_schedule-IsCoherent s j w r a h = grind coherent_rules

pub begin_booking-IsCoherent :
    (s : Repo) (j : String) (claim : WindowClaim) (now : ℕ)
    → IsCoherent s j
    → IsCoherent (begin_booking s claim now).0 j
unfolding begin_booking marker_of
begin_booking-IsCoherent s j claim now h = grind coherent_rules

pub release_claim-IsCoherent :
    (s : Repo) (j : String) (claim : WindowClaim)
    → IsCoherent s j
    → IsCoherent (release_claim s claim).0 j
unfolding release_claim
release_claim-IsCoherent s j claim h = grind coherent_rules

pub cancel_if_active-IsCoherent :
    (s : Repo) (j id : String) (now : ℕ)
    → IsCoherent s j
    → IsCoherent (cancel_if_active s id now).0 j
unfolding cancel_if_active apply_terminal marker_of
cancel_if_active-IsCoherent s j id now h = grind coherent_rules

apply_terminal-IsCoherent :
    (s : Repo) (j id : String) (watch : Watch) (runtime : Option WatchRuntime) (now : ℕ)
    → is_active watch.status ≡ false
    → is_some (get s.watches id) ≡ true
    → runtime ≡ get s.runtimes id
    → IsCoherent s j
    → IsCoherent (apply_terminal s id watch runtime now) j
unfolding apply_terminal
apply_terminal-IsCoherent s j id watch runtime now a b e h = grind coherent_rules

module _ (sha1_hex : String → String) where
  pub commit_window-IsCoherent :
      (s : Repo) (j : String) (claim : WindowClaim) (w : Watch) (r : WatchRuntime) (now later : ℕ)
      → IsCoherent s j
      → IsCoherent (commit_window sha1_hex s claim w r now later).0 j
  unfolding commit_window issue_event set_marker
  commit_window-IsCoherent s j claim w r now later h = grind coherent_rules

  -- Announcing touches the events only.
  issue_event-IsCoherent :
      (s : Repo) (j id : String) (status : WatchStatus) (revision : ℕ)
      → IsCoherent s j
      → IsCoherent (issue_event sha1_hex s id status revision).0 j
  unfolding issue_event
  issue_event-IsCoherent s j id status revision h = ground arith

  pub expire_if_eligible-IsCoherent :
      (s : Repo) (j id : String) (expected : Option ℕ) (force : Bool) (now : ℕ)
      → IsCoherent s j
      → IsCoherent (expire_if_eligible sha1_hex s id expected force now).0 j
  unfolding expire_if_eligible
  expire_if_eligible-IsCoherent s j id expected force now h =
      elim (Option-cases (get s.watches id)) [
        | inl e ↦ rw (e, expire_if_eligible) h
        | inr (w, e) ↦
            let done = finish_as WatchStatus.expired w now in
            let stored =
              apply_terminal-IsCoherent s j id done (get s.runtimes id) now refl (ground arith) refl
                h in
            let issued =
              issue_event-IsCoherent (apply_terminal s id done (get s.runtimes id) now) j id
                WatchStatus.expired (next_revision (get s.runtimes id)) stored in
            rw (e, expire_if_eligible) (ground (arith, issued, h))
      ]
