-- ===== src/Service/Poll.antt =====
-- `poll_window` and `_run_claimed`: claim first, then one provider sequence and one commit.
use dibs_reservation_sniper.Prelude.{
  ℕ, String, Bool, true, false, not, ◌||◌, Option, none, some, leb, if◌then◌else◌,
}
use dibs_reservation_sniper.Model.{
  Watch, WindowClaim, ClaimStatus, WatchPollOutcome, WatchPollResult,
}
use dibs_reservation_sniper.Repo.{claim_window, release_claim}
use dibs_reservation_sniper.Service.Env.{World, Settings, Readings, Adapter, make_result}
use dibs_reservation_sniper.Service.Builders.{
  found_watch, booked_watch, cancelled_watch, expired_watch, error_text,
}
use dibs_reservation_sniper.Service.Sequence.{
  Plan, provider_sequence, miss, found, booked, booked_replay, cancelled, noop, timed_out,
  slot_race, outage, broken,
}
use dibs_reservation_sniper.Service.Commit.{
  noop_result, commit_terminal, commit_miss, commit_outage,
}

module _ {A : Type 0} (sha1_hex : String → String) (settings : Settings) (p : Adapter A) where
  -- What `_run_claimed` does with the plan: `now` is its own clock reading.
  unfoldable pub carry_out :
      Readings → ℕ → World A → WindowClaim → Watch → ℕ → Plan → World A × Option WatchPollResult
  carry_out at draw w claim watch now miss =
      commit_miss sha1_hex settings at w claim watch now draw none
  carry_out at draw w claim watch now slot_race =
      commit_miss sha1_hex settings at w claim watch now draw none
  carry_out at draw w claim watch now timed_out =
      commit_outage sha1_hex settings at w claim watch now draw "The reservation provider timed out"
  carry_out at draw w claim watch now (outage message) =
      commit_outage sha1_hex settings at w claim watch now draw (error_text message)
  carry_out at draw w claim watch now (found slots) =
      commit_terminal sha1_hex settings at w claim (found_watch watch slots now)
  carry_out at draw w claim watch now (booked confirmation) =
      commit_terminal sha1_hex settings at w claim (booked_watch watch now confirmation true)
  carry_out at draw w claim watch now (booked_replay confirmation) =
      commit_terminal sha1_hex settings at w claim (booked_watch watch now confirmation false)
  carry_out at draw w claim watch now cancelled =
      commit_terminal sha1_hex settings at w claim (cancelled_watch watch now)
  -- Nothing is committed, and the claim stays until its lease is over.
  carry_out at draw w claim watch now broken = (w, none)
  carry_out at draw w claim watch now noop =
      noop_result (record w { repo = (release_claim w.repo claim).0 }) watch.watch_id

  -- `_run_claimed`
  unfoldable pub run_claimed :
      Readings → ℕ → World A → WindowClaim → World A × Option WatchPollResult
  run_claimed at draw w claim =
      let watch = claim.watch in
      let (w', plan) = provider_sequence p w at.permit_at claim watch in
      if leb watch.expires_at at.started_at || leb watch.max_attempts watch.attempts
      then commit_terminal sha1_hex settings at w claim (expired_watch watch at.started_at false)
      else carry_out at draw w' claim watch at.started_at plan

  -- What follows the claim decision.
  unfoldable pub with_claim :
      Readings
      → ℕ
      → World A
      → String
      → ClaimStatus
      → Option WindowClaim
      → World A × Option WatchPollResult
  unfolding run_claimed
  with_claim at draw w id ClaimStatus.unknown claim =
      (w, make_result WatchPollOutcome.unknown_watch none none)
  with_claim at draw w id ClaimStatus.owned (some claim) = run_claimed at draw w claim
  -- `assert claim_result.claim is not None`
  with_claim at draw w id ClaimStatus.owned none = (w, none)
  with_claim at draw w id _ claim = noop_result w id

  -- `poll_window`: `owner` is the caller's id or a fresh one, `draw` the poll's jitter.
  unfoldable pub poll_window :
      Readings → ℕ → World A → String → String → String → Bool → World A × Option WatchPollResult
  unfolding with_claim
  poll_window at draw w id window_id owner enforce_due =
      let (repo, result) =
        claim_window w.repo id window_id owner settings.poll_lease (not enforce_due)
          at.claimed_at in
      with_claim at draw (record w { repo = repo }) id result.status result.claim
