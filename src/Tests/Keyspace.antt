-- ===== src/Tests/Keyspace.antt =====
-- The theorems on the Redis store at a concrete watch.
use dibs_reservation_sniper.Prelude.{ℕ, ◌≡◌, refl, false, some, List, [], ◌∷◌, arith, inl, eq_iff}
use dibs_reservation_sniper.Dict.{get, put}
use dibs_reservation_sniper.Model.{Watch, WatchRuntime, TransitionStatus}
use dibs_reservation_sniper.Repo.{
  create_with_schedule, claim_window, begin_booking, cancel_if_active,
}
use dibs_reservation_sniper.Redis
use dibs_reservation_sniper.Redis.{
  Keyspace, new_keyspace, create_script, claim_script, begin_script,
}
use dibs_reservation_sniper.Redis.Calls.{Call}
use dibs_reservation_sniper.Redis.Race.{permit_between, cancel_overtakes_permit}
use dibs_reservation_sniper.Redis.Leader.{leader_exclusive}
use dibs_reservation_sniper.Redis.Recovery.{
  leader_at, acquire_leadership, renew_leadership, release_leadership,
}
use dibs_reservation_sniper.Tests.Data.{some_watch, some_runtime, first_claim}

abbrev missed : Watch
missed = record some_watch { attempts = 1; next_check_at = some 9000 }

abbrev missed_runtime : WatchRuntime
missed_runtime = record some_runtime {
  cadence_sequence = 1;
  window_id = some "w:1";
  scheduled_for = some 9000;
}

-- A watch is created and claimed, its owner takes a permit, a user cancels, the owner commits a
-- missed check, gives back a claim that it no longer has, and the user cancels again.
abbrev calls : List (ℕ × Call)
calls =
    (0, Call.create some_watch some_runtime)
    ∷ (1000, Call.claim "w" "w:0" "a" 5000 false)
    ∷ (2000, Call.begin first_claim)
    ∷ (2500, Call.cancel "w")
    ∷ (3000, Call.commit first_claim missed missed_runtime)
    ∷ (4000, Call.release first_claim)
    ∷ (4500, Call.cancel "w")
    ∷ []

-- The same watch in the keyspace, claimed.
abbrev claimed : Keyspace
claimed =
    (Redis.claim_window (Redis.create_with_schedule (new_keyspace 1000) some_watch some_runtime).0
      "w" "w:0" "a" 5000 false 1000).0

cancel_overtakes_permit_example :
    (Redis.cancel_if_active (permit_between first_claim 2000) (λ n. 2500) claimed "w").1.status
    ≡ TransitionStatus.applied
unfolding new_keyspace Redis.create_with_schedule Redis.claim_window Redis.begin_booking
    Redis.get_watch create_script claim_script begin_script get put
cancel_overtakes_permit_example =
    cancel_overtakes_permit (λ n. 2500) claimed first_claim some_watch some_runtime 2000 refl refl
      refl refl refl

abbrev led : Keyspace
led = (acquire_leadership (new_keyspace 1000) "a" 5000 0).0

leader_exclusive_example :
    (leader_at led 0 ≡ some "a")
    × ((acquire_leadership led "b" 5000 3 ≡ (led, false))
        × ((renew_leadership led "b" 5000 3 ≡ (led, false))
            × (release_leadership led "b" 3 ≡ (led, false))))
unfolding new_keyspace leader_at acquire_leadership
leader_exclusive_example =
    leader_exclusive (new_keyspace 1000) led "a" "b" 5000 5000 0 3 (inl refl)
      (ground (arith, eq_iff "a" "b")) (omega arith)
