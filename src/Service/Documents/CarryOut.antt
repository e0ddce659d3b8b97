-- ===== src/Service/Documents/CarryOut.antt =====
-- `_run_claimed`'s commits keep the documents valid.
use dibs_reservation_sniper.Prelude.{
  ◌+◌, ◌-◌, ℕ, ◌≡◌, refl, inl, inr, String, Bool, true, false, Option, none, [], ◌∷◌, Option-cases,
  if_keeps,
}
use dibs_reservation_sniper.Model.{is_active, WatchPollResult, WindowClaim, validate_state}
use dibs_reservation_sniper.Repo.{Repo, release_claim}
use dibs_reservation_sniper.Backoff.{saturating_outages, outage_delay}
use dibs_reservation_sniper.Service.Env.{World, Settings, Readings, Adapter}
use dibs_reservation_sniper.Service.Builders.{
  found_watch, booked_watch, cancelled_watch, expired_watch, attempted_watch, outage_watch,
}
use dibs_reservation_sniper.Service.Sequence.{
  Plan, miss, found, booked, booked_replay, cancelled, noop, timed_out, slot_race, outage, broken,
}
use dibs_reservation_sniper.Service.Commit.{commit_miss, commit_outage}
use dibs_reservation_sniper.Service.Poll.{carry_out}
use dibs_reservation_sniper.Service.Documents.{StoredValid, IsRecordable, noop_repo}
use dibs_reservation_sniper.Service.Documents.Commits.{terminal_keeps, successor_keeps}
use dibs_reservation_sniper.Service.Documents.Built.{
  found_valid, booked_valid, cancelled_valid, expired_valid, missed_valid, successor_valid,
  outage_valid,
}

module _ {A : Type 0} (sha1_hex : String → String) (settings : Settings) (at : Readings)
    (w : World A) (claim : WindowClaim) (h : StoredValid w.repo)
    (ok : validate_state claim.watch ≡ true) (active : is_active claim.watch.status ≡ true) where
  miss_keeps :
      (now draw : ℕ) (error : Option String)
      → StoredValid (commit_miss sha1_hex settings at w claim claim.watch now draw error).0.repo
  unfolding commit_miss expired_watch attempted_watch
  miss_keeps now draw error =
      if_keeps (λ (x : World A × Option WatchPollResult). StoredValid x.0.repo) _
        (terminal_keeps sha1_hex settings at w claim _ h
          (missed_valid claim.watch now ok active error) refl)
        (successor_keeps sha1_hex settings at w claim claim.watch _ _ _ _ h
          (successor_valid claim.watch now ok active error _) refl)

  outage_keeps :
      (now draw : ℕ) (error : String)
      → StoredValid (commit_outage sha1_hex settings at w claim claim.watch now draw error).0.repo
  unfolding commit_outage expired_watch outage_watch
  outage_keeps now draw error =
      elim (Option-cases (
        outage_delay settings.schedule settings.backoff_max
          (saturating_outages settings.schedule settings.backoff_max
            (claim.runtime.consecutive_outages + 1))
          (claim.watch.expires_at - now) draw)) [
            | inl e ↦
                rw (commit_outage, e)
                  (terminal_keeps sha1_hex settings at w claim _ h
                    (expired_valid claim.watch now ok active false) refl)
            | inr (d, e) ↦
                rw (commit_outage, e)
                  (successor_keeps sha1_hex settings at w claim claim.watch _ _ _ _ h
                    (outage_valid claim.watch now ok active error (now + d)) refl)
          ]

module _ {A : Type 0} (sha1_hex : String → String) (settings : Settings) (p : Adapter A)
    (at : Readings) (w : World A) (claim : WindowClaim) (h : StoredValid w.repo)
    (ok : validate_state claim.watch ≡ true) (active : is_active claim.watch.status ≡ true) where
  released_keeps : StoredValid (release_claim w.repo claim).0
  unfolding release_claim
  released_keeps = if_keeps (λ (x : Repo × Bool). StoredValid x.0) _ h h

  pub carry_out_keeps :
      (now draw : ℕ) (plan : Plan)
      → IsRecordable plan
      → StoredValid (carry_out sha1_hex settings p at draw w claim claim.watch now plan).0.repo
  unfolding carry_out found_watch booked_watch cancelled_watch
  carry_out_keeps now draw miss q =
      miss_keeps sha1_hex settings at w claim h ok active now draw none
  carry_out_keeps now draw slot_race q =
      miss_keeps sha1_hex settings at w claim h ok active now draw none
  carry_out_keeps now draw timed_out q =
      outage_keeps sha1_hex settings at w claim h ok active now draw _
  carry_out_keeps now draw (outage message) q =
      outage_keeps sha1_hex settings at w claim h ok active now draw _
  carry_out_keeps now draw broken q = h
  carry_out_keeps now draw (found []) q = elim q [ ]
  carry_out_keeps now draw (found (slot ∷ slots)) q =
      terminal_keeps sha1_hex settings at w claim (found_watch claim.watch (slot ∷ slots) now) h
        (found_valid claim.watch now ok active slot slots) refl
  carry_out_keeps now draw (booked confirmation) q =
      terminal_keeps sha1_hex settings at w claim (booked_watch claim.watch now confirmation true) h
        (booked_valid claim.watch now ok active confirmation true) refl
  carry_out_keeps now draw (booked_replay confirmation) q =
      terminal_keeps sha1_hex settings at w claim (booked_watch claim.watch now confirmation false)
        h (booked_valid claim.watch now ok active confirmation false) refl
  carry_out_keeps now draw cancelled q =
      terminal_keeps sha1_hex settings at w claim (cancelled_watch claim.watch now) h
        (cancelled_valid claim.watch now ok active) refl
  carry_out_keeps now draw noop q =
      rw (noop_repo (record w { repo = (release_claim w.repo claim).0 }) claim.watch.watch_id)
        released_keeps
