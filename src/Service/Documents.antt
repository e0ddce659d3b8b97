-- ===== src/Service/Documents.antt =====
-- Which documents a poll leaves in the store.
pub mod Commits
pub mod Built
pub mod CarryOut
pub mod Plans
pub mod Polls
use dibs_reservation_sniper.Prelude.{
  ◌+◌, ◌-◌, ℕ, zero, suc, ◌≡◌, ◌≤◌, ◌<◌, refl, ◌⊎◌, ap, sym, ◌∙◌, inl, inr, String, Bool, true,
  false, not, Option, none, some, List, [], ◌∷◌, arith, eq_iff, leb, if◌then◌else◌, Option-cases,
  Bool-cases, if_keeps, take,
}
use dibs_reservation_sniper.Dict.{Dict, put, get, get-put, get-pop}
use dibs_reservation_sniper.Model.{
  WatchStatus, Watch, is_active, WatchRuntime, AvailabilityQuery, AvailabilitySlot,
  BookingConfirmation, WatchPollResult, WindowClaim, validate_state, ClaimStatus,
  BookingPermitStatus,
}
use dibs_reservation_sniper.Repo.{
  Repo, commit_window, issue_event, set_marker, claim_window, grant_claim, begin_booking,
  release_claim, get_watch,
}
use dibs_reservation_sniper.Backoff.{saturating_outages, outage_delay}
use dibs_reservation_sniper.Service.Env.{
  notify, publish, record_history, World, Settings, Readings, Adapter, Reply, Reconciliation,
}
use dibs_reservation_sniper.Service.Builders.{
  idempotency_key, terminal_runtime, found_watch, booked_watch, cancelled_watch, expired_watch,
  attempted_watch, outage_watch, max_recorded_slots,
}
use dibs_reservation_sniper.Service.Sequence
use dibs_reservation_sniper.Service.Sequence.{
  Plan, provider_sequence, after_book, with_permit, after_search, after_get, resolve,
  auto_book_sequence, cancel_requested, reconcile_attempts, Booked, got, exhausted, errored, late,
  miss, found, booked, booked_replay, cancelled, noop, timed_out, slot_race, outage,
}
use dibs_reservation_sniper.Service.Commit.{
  is_committed, commit, noop_result, commit_terminal, commit_successor, commit_miss, commit_outage,
}
use dibs_reservation_sniper.Service.Poll.{carry_out, run_claimed, with_claim, poll_window}

-- Every stored document passes the model's validator, and stands under its own id.
abbrev pub StoredValid : Repo → Type 0
StoredValid s =
    (i : String) (v : Watch)
    → get s.watches i ≡ some v
    → (validate_state v ≡ true) × (v.watch_id ≡ i)

pub claimed_valid :
    (s : Repo) (id win own : String) (lease : ℕ) (ig : Bool) (now : ℕ) {c : WindowClaim}
    → StoredValid s
    → (claim_window s id win own lease ig now).1.claim ≡ some c
    → (validate_state c.watch ≡ true) × (is_active c.watch.status ≡ true)
unfolding claim_window grant_claim
claimed_valid s id win own lease ig now h e = elim (Option-cases (get s.watches id)) [
  | inl p ↦ absurd (ground arith)
  | inr (w, p) ↦ ground (arith, h id w p)
]

pub claim_keeps :
    (s : Repo) (id win own : String) (lease : ℕ) (ig : Bool) (now : ℕ)
    → (claim_window s id win own lease ig now).0.watches ≡ s.watches
unfolding claim_window grant_claim
claim_keeps s id win own lease ig now = ground arith

-- A commit leaves the documents as they are, or stores the caller's.
abbrev pub Stores : Repo → Repo → String → Watch → Type 0
Stores s s' id v = (s'.watches ≡ s.watches) ⊎ (s'.watches ≡ put s.watches id v)

put_valid :
    (d : Dict Watch) (id i : String) (v u : Watch)
    → (get d i ≡ some u → (validate_state u ≡ true) × (u.watch_id ≡ i))
    → validate_state v ≡ true
    → v.watch_id ≡ id
    → get (put d id v) i ≡ some u
    → (validate_state u ≡ true) × (u.watch_id ≡ i)
put_valid d id i v u h ok same e = grind (arith, eq_iff, get-put)

pub stores_valid :
    (s s' : Repo) (id : String) (v : Watch)
    → Stores s s' id v
    → StoredValid s
    → validate_state v ≡ true
    → v.watch_id ≡ id
    → StoredValid s'
stores_valid s s' id v (inl p) h ok same i u e = h i u (ap (λ d. get d i) (sym p) ∙ e)
stores_valid s s' id v (inr p) h ok same i u e =
    put_valid s.watches id i v u (h i u) ok same (ap (λ d. get d i) (sym p) ∙ e)

pub window-Stores :
    (sha1_hex : String → String) (s : Repo) (claim : WindowClaim) (v : Watch) (r : WatchRuntime)
    (now later : ℕ)
    → Stores s (commit_window sha1_hex s claim v r now later).0 claim.watch.watch_id v
unfolding commit_window issue_event set_marker
window-Stores sha1_hex s claim v r now later = grind arith

-- A plan that records slots records at least one.
abbrev pub IsRecordable : Plan → Type 0
IsRecordable (found []) = ⊥
IsRecordable _ = Unit {0}

-- A refused poll reads the document, and touches nothing.
pub noop_repo : {A : Type 0} (v : World A) (id : String) → (noop_result v id).0 ≡ v
unfolding noop_result
noop_repo v id = ground arith
