-- ===== src/Service/Documents/Polls.antt =====
-- A whole poll keeps the documents valid.
use dibs_reservation_sniper.Prelude.{
  ℕ, ◌≡◌, refl, ap, sym, ◌∙◌, String, Bool, true, false, not, Option, none, some, if_keeps,
}
use dibs_reservation_sniper.Dict.{get}
use dibs_reservation_sniper.Model.{
  is_active, WatchPollResult, WindowClaim, validate_state, ClaimStatus,
}
use dibs_reservation_sniper.Repo.{claim_window}
use dibs_reservation_sniper.Service.Env.{World, Settings, Readings, Adapter}
use dibs_reservation_sniper.Service.Builders.{expired_watch}
use dibs_reservation_sniper.Service.Sequence.{provider_sequence}
use dibs_reservation_sniper.Service.Poll.{run_claimed, with_claim, poll_window}
use dibs_reservation_sniper.Service.Documents.{StoredValid, claimed_valid, claim_keeps, noop_repo}
use dibs_reservation_sniper.Service.Documents.Commits.{terminal_keeps}
use dibs_reservation_sniper.Service.Documents.Built.{expired_valid}
use dibs_reservation_sniper.Service.Documents.CarryOut.{carry_out_keeps}
use dibs_reservation_sniper.Service.Documents.Plans.{KeepsDocuments, sequence_keeps}

module _ {A : Type 0} (sha1_hex : String → String) (settings : Settings) (p : Adapter A)
    (k : KeepsDocuments p) (at : Readings) (draw : ℕ) where
  run_claimed_keeps :
      (w : World A) (claim : WindowClaim)
      → StoredValid w.repo
      → validate_state claim.watch ≡ true
      → is_active claim.watch.status ≡ true
      → StoredValid (run_claimed sha1_hex settings p at draw w claim).0.repo
  unfolding run_claimed
  run_claimed_keeps w claim h ok active =
      let good = sequence_keeps p k w at.permit_at claim claim.watch h in
      if_keeps (λ (x : World A × Option WatchPollResult). StoredValid x.0.repo) _
        (terminal_keeps sha1_hex settings at w claim (expired_watch claim.watch at.started_at false)
          h (expired_valid claim.watch at.started_at ok active false)
          (unfold expired_watch in refl))
        (carry_out_keeps sha1_hex settings p at
          (provider_sequence p w at.permit_at claim claim.watch).0 claim good.0 ok active
          at.started_at draw (provider_sequence p w at.permit_at claim claim.watch).1 good.1)

  with_claim_keeps :
      (w : World A) (id : String) (status : ClaimStatus) (o : Option WindowClaim)
      → StoredValid w.repo
      → ((c : WindowClaim)
          → o ≡ some c
          → (validate_state c.watch ≡ true) × (is_active c.watch.status ≡ true))
      → StoredValid (with_claim sha1_hex settings p at draw w id status o).0.repo
  unfolding with_claim
  with_claim_keeps w id ClaimStatus.unknown o h g = h
  with_claim_keeps w id ClaimStatus.owned none h g = h
  with_claim_keeps w id ClaimStatus.owned (some c) h g =
      run_claimed_keeps w c h (g c refl).0 (g c refl).1
  with_claim_keeps w id _ o h g = rw (noop_repo w id) h

  -- If every stored document passes `Watch.validate_state` under its own id, and what runs during
  -- the provider calls keeps that so, then it is so after a poll: whatever the provider answers,
  -- nothing that the poll commits breaks the validator.
  pub poll_window_keeps_valid :
      (w : World A) (id window_id owner : String) (enforce_due : Bool)
      → StoredValid w.repo
      → StoredValid
          (poll_window sha1_hex settings p at draw w id window_id owner enforce_due).0.repo
  unfolding poll_window
  poll_window_keeps_valid w id window_id owner enforce_due h =
      let ig = not enforce_due in
      with_claim_keeps
        (record w {
          repo = (claim_window w.repo id window_id owner settings.poll_lease ig at.claimed_at).0;
        })
        id (claim_window w.repo id window_id owner settings.poll_lease ig at.claimed_at).1.status
        (claim_window w.repo id window_id owner settings.poll_lease ig at.claimed_at).1.claim
        (λ i v e. h i v (
          ap (λ d. get d i)
            (sym (claim_keeps w.repo id window_id owner settings.poll_lease ig at.claimed_at))
          ∙ e))
        (λ c e. claimed_valid w.repo id window_id owner settings.poll_lease ig at.claimed_at h e)
