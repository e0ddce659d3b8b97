-- ===== src/Repo/Coherent/Repairs.antt =====
-- Dispatching, deleting, cleaning up, pruning and repairing keep every watch's entries coherent.
use dibs_reservation_sniper.Prelude.{
  ℕ, ◌≡◌, inl, inr, String, Bool, false, [], ◌∷◌, take, sort_by, Bool-cases, is_some_and,
}
use dibs_reservation_sniper.Dict.{Dict, get, pop}
use dibs_reservation_sniper.Model.{is_terminal, WatchRuntime, ScheduleMarker, DispatchClaim}
use dibs_reservation_sniper.Repo.State.{Repo, set_marker}
use dibs_reservation_sniper.Repo.Dispatch.{
  claim_dispatch, marker_is_current, mark_dispatched, release_dispatch,
}
use dibs_reservation_sniper.Repo.Documents.{forget, delete}
use dibs_reservation_sniper.Repo.Recovery.{
  due_ids, cleanup_one, cleanup_all, cleanup_due, prune_index_member, synthesize_marker,
}
use dibs_reservation_sniper.Repo.Coherent.{IsCoherent, coherent_rules}

pub claim_dispatch-IsCoherent :
    (s : Repo) (j : String) (m : ScheduleMarker) (own : String) (lease now : ℕ)
    → IsCoherent s j
    → IsCoherent (claim_dispatch s m own lease now).0 j
unfolding claim_dispatch marker_is_current
claim_dispatch-IsCoherent s j m own lease now h = grind coherent_rules

pub mark_dispatched-IsCoherent :
    (s : Repo) (j : String) (claim : DispatchClaim) (redispatch_after : ℕ)
    → IsCoherent s j
    → IsCoherent (mark_dispatched s claim redispatch_after).0 j
unfolding mark_dispatched
mark_dispatched-IsCoherent s j claim redispatch_after h = grind coherent_rules

pub release_dispatch-IsCoherent :
    (s : Repo) (j : String) (claim : DispatchClaim)
    → IsCoherent s j
    → IsCoherent (release_dispatch s claim).0 j
unfolding release_dispatch
release_dispatch-IsCoherent s j claim h = grind coherent_rules

forget-IsCoherent : (s : Repo) (j id : String) → IsCoherent s j → IsCoherent (forget s id) j
unfolding forget
forget-IsCoherent s j id h = grind coherent_rules

pub delete-IsCoherent : (s : Repo) (j id : String) → IsCoherent s j → IsCoherent (delete s id).0 j
unfolding delete
delete-IsCoherent s j id h = forget-IsCoherent s j id h

-- A coherent store has no deadline where the document is gone or not finished.
drop-IsCoherent :
    (s : Repo) (j id : String)
    → is_some_and (get s.watches id) (λ w. is_terminal w.status) ≡ false
    → IsCoherent s j
    → IsCoherent (record s { terminal_delete_at = pop s.terminal_delete_at id }) j
drop-IsCoherent s j id e h = grind coherent_rules

cleanup_one-IsCoherent :
    (s : Repo) (j id : String) → IsCoherent s j → IsCoherent (cleanup_one s id).0 j
unfolding cleanup_one
cleanup_one-IsCoherent s j id h =
    elim (Bool-cases (is_some_and (get s.watches id) (λ w. is_terminal w.status))) [
      | inl e ↦ rw e (forget-IsCoherent s j id h)
      | inr e ↦ rw e (drop-IsCoherent s j id e h)
    ]

cleanup_all-IsCoherent :
    (s : Repo) (j : String) (n : ℕ) (due : Dict ℕ)
    → IsCoherent s j
    → IsCoherent (cleanup_all s n due).0 j
unfolding cleanup_all
cleanup_all-IsCoherent s j n [] h = h
cleanup_all-IsCoherent s j n ((id, t) ∷ due) h =
    cleanup_all-IsCoherent (cleanup_one s id).0 j _ due (cleanup_one-IsCoherent s j id h)

pub cleanup_due-IsCoherent :
    (s : Repo) (j : String) (now batch_size : ℕ)
    → IsCoherent s j
    → IsCoherent (cleanup_due s now batch_size).0 j
unfolding cleanup_due
cleanup_due-IsCoherent s j now batch_size h =
    cleanup_all-IsCoherent s j 0
      (take batch_size (sort_by (λ e. e.1) (due_ids now s.terminal_delete_at))) h

pub prune_index_member-IsCoherent :
    (s : Repo) (j id : String) (from_all : Bool)
    → IsCoherent s j
    → IsCoherent (prune_index_member s id from_all) j
unfolding prune_index_member
prune_index_member-IsCoherent s j id from_all h = grind coherent_rules

pub synthesize_marker-IsCoherent :
    (s : Repo) (j id : String) (runtime : WatchRuntime) (now : ℕ)
    → IsCoherent s j
    → IsCoherent (synthesize_marker s id runtime now).0 j
unfolding synthesize_marker set_marker
synthesize_marker-IsCoherent s j id runtime now h = grind coherent_rules
