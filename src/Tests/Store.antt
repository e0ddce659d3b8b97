-- ===== src/Tests/Store.antt =====
-- The theorems on the repository at a concrete watch.
use dibs_reservation_sniper.Prelude.{
  ℕ, ◌≤◌, ◌<◌, ◌≡◌, ◌≢◌, ◌⊎◌, refl, String, true, false, none, some, List, [], ◌∷◌, arith, length,
}
use dibs_reservation_sniper.Dict.{get, put}
use dibs_reservation_sniper.Model.{
  WatchStatus, Watch, WatchRuntime, is_active, TransitionStatus, BookingPermitStatus, ClaimStatus,
}
use dibs_reservation_sniper.Repo.{
  Repo, new_repo, create_with_schedule, claim_window, grant_claim, begin_booking, set_marker,
  marker_of, lease_held, not_due, owns, cancel_if_active, apply_terminal, commit_window,
  cleanup_due,
}
use dibs_reservation_sniper.Repo.Steps.{Op, step, run}
use dibs_reservation_sniper.Repo.Coherent.{IsCoherent}
use dibs_reservation_sniper.Repo.Reach.{run-IsCoherent}
use dibs_reservation_sniper.Repo.Fencing.Stale.{
  IsRefused, superseded_claim-IsRefused, cancelled_claim-IsRefused, committed_claim-IsRefused,
}
use dibs_reservation_sniper.Repo.Final.Announced.{announced, announced-le-one, finished_watch_final}
use dibs_reservation_sniper.Repo.Booking.{permit_then_cancel, claim_exclusive}
use dibs_reservation_sniper.Repo.Retention.{cleanup_due_bounded}
use dibs_reservation_sniper.Tests.Data.{
  same_text, some_watch, some_runtime, first_claim, second_claim, cancelled_watch, created, claimed,
}

superseded_claim-IsRefused_example :
    IsRefused same_text
      (run same_text
        (claim_window
          (run same_text claimed ((20, Op.begin first_claim) ∷ []))
          "w"
          "w:0"
          "b"
          100
          false
          200).0
        ((210, Op.begin second_claim) ∷ []))
      first_claim
    × (1 < 2)
unfolding create_with_schedule new_repo claim_window grant_claim begin_booking set_marker marker_of
    get put lease_held not_due owns step run
superseded_claim-IsRefused_example =
    superseded_claim-IsRefused same_text created "w" "w:0" "a" 100 false 10
      ((20, Op.begin first_claim) ∷ []) refl refl (tt, tt) "w:0" "b" 100 false 200
      ((210, Op.begin second_claim) ∷ []) refl (tt, tt)

-- A watch is created and claimed, and its owner takes a booking permit.
abbrev first_ops : List (ℕ × Op)
first_ops =
    (0, Op.create some_watch some_runtime)
    ∷ (10, Op.claim "w" "w:0" "a" 100 false)
    ∷ (20, Op.begin first_claim)
    ∷ []

run-IsCoherent_example : IsCoherent (run same_text (new_repo 1000) first_ops) "w"
run-IsCoherent_example = run-IsCoherent same_text 1000 first_ops "w" (refl, (tt, (tt, tt)))

cancelled_claim-IsRefused_example :
    IsRefused same_text
      (run same_text
        (cancel_if_active (run same_text claimed []) "w" 30).0
        ((40, Op.begin first_claim) ∷ []))
      first_claim
unfolding create_with_schedule new_repo claim_window grant_claim begin_booking set_marker marker_of
    get put lease_held not_due owns step run cancel_if_active
cancelled_claim-IsRefused_example =
    cancelled_claim-IsRefused same_text created "w" "w:0" "a" 100 false 10 [] refl refl tt 30
      ((40, Op.begin first_claim) ∷ []) refl (tt, tt)

claimed-IsCoherent : IsCoherent claimed "w"
unfolding run step
claimed-IsCoherent =
    run-IsCoherent same_text 1000
      ((0, Op.create some_watch some_runtime) ∷ (10, Op.claim "w" "w:0" "a" 100 false) ∷ []) "w"
      (refl, (tt, tt))

-- A missed check and its successor.
abbrev missed : Watch
missed = record some_watch { attempts = 1; next_check_at = some 500 }

abbrev missed_runtime : WatchRuntime
missed_runtime = record some_runtime {
  cadence_sequence = 1;
  window_id = some "w:1";
  scheduled_for = some 500;
}

committed_claim-IsRefused_example :
    IsRefused same_text
      (run same_text
        (commit_window same_text claimed first_claim missed missed_runtime 20 21).0
        ((30, Op.begin first_claim) ∷ []))
      first_claim
unfolding create_with_schedule new_repo claim_window grant_claim begin_booking set_marker marker_of
    get put lease_held not_due owns step run commit_window
committed_claim-IsRefused_example =
    committed_claim-IsRefused same_text claimed first_claim missed missed_runtime 20 21
      ((30, Op.begin first_claim) ∷ []) claimed-IsCoherent refl (tt, tt)

-- The owner commits an expiry, and a sweep expires the watch again.
abbrev racing_ops : List (ℕ × Op)
racing_ops =
    (20, Op.commit first_claim (record some_watch { status = WatchStatus.expired }) some_runtime 21)
    ∷ (30, Op.expire "w" none true)
    ∷ []

announced-le-one_example : length (announced same_text "w" claimed racing_ops) ≤ 1
announced-le-one_example = announced-le-one same_text "w" claimed racing_ops (tt, (tt, tt))

abbrev finished : Repo
finished = (cancel_if_active claimed "w" 30).0

finished_watch_final_example :
    ((get (run same_text finished racing_ops).watches "w" ≡ some cancelled_watch)
      ⊎ (get (run same_text finished racing_ops).watches "w" ≡ none))
    × (announced same_text "w" finished racing_ops ≡ [])
unfolding create_with_schedule new_repo claim_window grant_claim begin_booking set_marker marker_of
    get put lease_held not_due owns cancel_if_active apply_terminal
finished_watch_final_example =
    finished_watch_final same_text cancelled_watch "w" finished racing_ops refl refl (tt, (tt, tt))

abbrev permitted : Repo
permitted = (begin_booking claimed first_claim 20).0

permit_then_cancel_example :
    ((cancel_if_active permitted "w" 30).1.status ≡ TransitionStatus.not_eligible)
    × ((cancel_if_active permitted "w" 30).0.watches ≡ claimed.watches)
    × ((cancel_if_active permitted "w" 30).0.claims ≡ claimed.claims)
    × ((begin_booking (cancel_if_active permitted "w" 30).0 first_claim 40).1.status
        ≡ BookingPermitStatus.cancelled)
unfolding create_with_schedule new_repo claim_window grant_claim begin_booking set_marker marker_of
    get put lease_held not_due owns
permit_then_cancel_example =
    permit_then_cancel claimed first_claim 20 30 40
      (record { window_id = "w:0"; owner_id = "a"; token = 1; expires_at = 110 }) refl refl
      (omega arith)

claim_exclusive_example :
    ((claim_window claimed "w" "w:0" "b" 100 true 50).1.status ≢ ClaimStatus.owned)
    × ((claim_window claimed "w" "w:0" "b" 100 true 50).0 ≡ claimed)
unfolding create_with_schedule new_repo claim_window grant_claim begin_booking set_marker marker_of
    get put lease_held not_due owns
claim_exclusive_example =
    claim_exclusive created "w" "w:0" "a" "b" 100 100 false true 10 50 refl (omega arith)

cleanup_due_bounded_example :
    ((cleanup_due finished 2000 1).1.removed ≤ 1)
    × ((j : String) (w : Watch)
        → get finished.watches j ≡ some w
        → is_active w.status ≡ true
        → get (cleanup_due finished 2000 1).0.watches j ≡ some w)
    × ((j : String) (t : ℕ)
        → get finished.terminal_delete_at j ≡ some t
        → 2000 < t
        → get (cleanup_due finished 2000 1).0.watches j ≡ get finished.watches j)
unfolding create_with_schedule new_repo claim_window grant_claim begin_booking set_marker marker_of
    get put lease_held not_due owns cancel_if_active apply_terminal
cleanup_due_bounded_example = cleanup_due_bounded finished 2000 1 (tt, tt)
