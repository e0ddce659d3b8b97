-- ===== src/Service/Total.antt =====
-- A poll ends in a result: no model validator and no table lookup can raise in it, and nor does the
-- provider if it keeps to its interface.
use dibs_reservation_sniper.Prelude.{
  ℕ, ◌≡◌, refl, String, Bool, true, false, not, Option, none, some, arith, is_some,
}
use dibs_reservation_sniper.Model.{
  Watch, is_terminal, WatchRuntime, WindowClaim, ClaimStatus, validate_scheduling,
}
use dibs_reservation_sniper.Repo.{Repo, claim_window, grant_claim, commit_window}
use dibs_reservation_sniper.Service.Env.{World, Settings, Readings, Adapter, make_result}
use dibs_reservation_sniper.Service.Builders.{
  terminal_runtime, found_watch, booked_watch, cancelled_watch, expired_watch,
}
use dibs_reservation_sniper.Service.Sequence.{
  Plan, provider_sequence, miss, found, booked, booked_replay, cancelled, noop, timed_out,
  slot_race, outage, broken,
}
use dibs_reservation_sniper.Service.Commit.{
  commit, is_committed, noop_result, commit_terminal, commit_successor, commit_miss, commit_outage,
}
use dibs_reservation_sniper.Service.Answered.{IsRegular, IsWhole, sequence-IsWhole}
use dibs_reservation_sniper.Service.Poll.{carry_out, run_claimed, with_claim, poll_window}

pub owned_carries_claim :
    (s : Repo) (id window_id owner_id : String) (lease : ℕ) (ig : Bool) (now : ℕ)
    → (claim_window s id window_id owner_id lease ig now).1.status ≡ ClaimStatus.owned
    → is_some (claim_window s id window_id owner_id lease ig now).1.claim ≡ true
unfolding claim_window grant_claim
owned_carries_claim s id window_id owner_id lease ig now h = ground arith

pub noop_result_total :
    {A : Type 0} (w : World A) (id : String) → is_some (noop_result w id).1 ≡ true
unfolding noop_result make_result validate_scheduling
noop_result_total w id = ground arith

-- A commit that went through names the document that it stored: the caller's.
pub commit_stored :
    {A : Type 0} (sha1_hex : String → String) (settings : Settings) (at : Readings) (w : World A)
    (claim : WindowClaim) (v : Watch) (r : WatchRuntime)
    → is_committed (commit sha1_hex settings at w claim v r).1.status ≡ true
    → (commit sha1_hex settings at w claim v r).1.watch ≡ some v
unfolding commit commit_window
commit_stored sha1_hex settings at w claim v r h = ground arith

module _ {A : Type 0} (sha1_hex : String → String) (settings : Settings) (at : Readings) where
  -- A finished document's status has an outcome, or is the cancellation's.
  commit_terminal_total :
      (w : World A) (claim : WindowClaim) (v : Watch)
      → is_terminal v.status ≡ true
      → is_some (commit_terminal sha1_hex settings at w claim v).1 ≡ true
  unfolding commit_terminal make_result validate_scheduling
  commit_terminal_total w claim v t = ground (
    arith,
    commit_stored sha1_hex settings at w claim v (terminal_runtime claim.runtime),
    noop_result_total (commit sha1_hex settings at w claim v (terminal_runtime claim.runtime)).0
        v.watch_id,
  )

  commit_successor_total :
      (w : World A) (claim : WindowClaim) (watch v : Watch) (r : WatchRuntime) (delay t : ℕ)
      → is_some (commit_successor sha1_hex settings at w claim watch v r delay t).1 ≡ true
  unfolding commit_successor make_result validate_scheduling
  commit_successor_total w claim watch v r delay t =
      ground (arith, noop_result_total (commit sha1_hex settings at w claim v r).0 watch.watch_id)

  commit_miss_total :
      (w : World A) (claim : WindowClaim) (watch : Watch) (now draw : ℕ) (error : Option String)
      → is_some (commit_miss sha1_hex settings at w claim watch now draw error).1 ≡ true
  unfolding commit_miss expired_watch
  commit_miss_total w claim watch now draw error =
      grind (arith, commit_terminal_total w claim, commit_successor_total w claim watch)

  commit_outage_total :
      (w : World A) (claim : WindowClaim) (watch : Watch) (now draw : ℕ) (error : String)
      → is_some (commit_outage sha1_hex settings at w claim watch now draw error).1 ≡ true
  unfolding commit_outage expired_watch
  commit_outage_total w claim watch now draw error =
      grind (arith, commit_terminal_total w claim, commit_successor_total w claim watch)

module _ {A : Type 0} (sha1_hex : String → String) (settings : Settings) (p : Adapter A)
    (k : IsRegular p) where
  carry_out_total :
      (at : Readings) (draw : ℕ) (w : World A) (claim : WindowClaim) (watch : Watch) (now : ℕ)
      (plan : Plan)
      → IsWhole plan
      → is_some (carry_out sha1_hex settings p at draw w claim watch now plan).1 ≡ true
  unfolding carry_out found_watch booked_watch cancelled_watch
  carry_out_total at draw w claim watch now broken q = elim q [ ]
  carry_out_total at draw w claim watch now miss q =
      commit_miss_total sha1_hex settings at w claim watch now draw none
  carry_out_total at draw w claim watch now slot_race q =
      commit_miss_total sha1_hex settings at w claim watch now draw none
  carry_out_total at draw w claim watch now timed_out q =
      commit_outage_total sha1_hex settings at w claim watch now draw _
  carry_out_total at draw w claim watch now (outage message) q =
      commit_outage_total sha1_hex settings at w claim watch now draw _
  carry_out_total at draw w claim watch now noop q = noop_result_total _ watch.watch_id
  carry_out_total at draw w claim watch now (found slots) q =
      commit_terminal_total sha1_hex settings at w claim (found_watch watch slots now) refl
  carry_out_total at draw w claim watch now (booked confirmation) q =
      commit_terminal_total sha1_hex settings at w claim (booked_watch watch now confirmation true)
        refl
  carry_out_total at draw w claim watch now (booked_replay confirmation) q =
      commit_terminal_total sha1_hex settings at w claim (booked_watch watch now confirmation false)
        refl
  carry_out_total at draw w claim watch now cancelled q =
      commit_terminal_total sha1_hex settings at w claim (cancelled_watch watch now) refl

  run_claimed_total :
      (at : Readings) (draw : ℕ) (w : World A) (claim : WindowClaim)
      → is_some (run_claimed sha1_hex settings p at draw w claim).1 ≡ true
  unfolding run_claimed
  run_claimed_total at draw w claim = ground (
    arith,
    commit_terminal_total sha1_hex settings at w claim
        (expired_watch claim.watch at.started_at false) (unfold expired_watch in refl),
    carry_out_total at draw (provider_sequence p w at.permit_at claim claim.watch).0 claim
        claim.watch at.started_at (provider_sequence p w at.permit_at claim claim.watch).1
        (sequence-IsWhole p k w at.permit_at claim claim.watch),
  )

  with_claim_total :
      (at : Readings) (draw : ℕ) (w : World A) (id : String) (status : ClaimStatus)
      (claim : Option WindowClaim)
      → (status ≡ ClaimStatus.owned → is_some claim ≡ true)
      → is_some (with_claim sha1_hex settings p at draw w id status claim).1 ≡ true
  unfolding with_claim make_result validate_scheduling
  with_claim_total at draw w id ClaimStatus.unknown claim h = refl
  with_claim_total at draw w id ClaimStatus.owned (some claim) h = run_claimed_total at draw w claim
  with_claim_total at draw w id ClaimStatus.owned none h = cc (h refl)
  with_claim_total at draw w id _ claim h = noop_result_total w id

  -- With a provider that keeps to its interface (it raises adapter errors only, the poll is not
  -- cancelled while it waits, and what it confirms it returns), a window poll ends in a result,
  -- whatever the store, the other tasks and the provider's answers are: the terminal document's
  -- status always has an outcome, an owned claim always carries its proof, and every
  -- `WatchPollResult` that is built passes its own validator.
  pub poll_window_total :
      (at : Readings) (draw : ℕ) (w : World A) (id window_id owner : String) (enforce_due : Bool)
      → is_some (poll_window sha1_hex settings p at draw w id window_id owner enforce_due).1 ≡ true
  unfolding poll_window
  poll_window_total at draw w id window_id owner enforce_due = with_claim_total at draw _ id _ _ (
      owned_carries_claim w.repo id window_id owner settings.poll_lease (not enforce_due)
        at.claimed_at)
