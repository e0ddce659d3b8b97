-- ===== src/Redis/Calls.antt =====
-- The calls of a watch's life against either store, with what they answer.
use dibs_reservation_sniper.Prelude.{ℕ, ◌≡◌, String, Bool, true, Option, some, List, [], ◌∷◌}
use dibs_reservation_sniper.Dict.{get}
use dibs_reservation_sniper.Model.{
  Watch, is_active, WatchRuntime, WindowClaim, CreateResult, ClaimResult, BookingPermit,
  CommitStatus, TransitionResult,
}
use dibs_reservation_sniper.Repo
use dibs_reservation_sniper.Repo.{Repo}
use dibs_reservation_sniper.Redis.State.{Keyspace, Whole}
use dibs_reservation_sniper.Redis.Methods
use dibs_reservation_sniper.Redis.Tied.{DueWhole, InTime}
use dibs_reservation_sniper.Redis.Committing.{Genuine, outcome}
use dibs_reservation_sniper.Redis.Ending.{quiet}

pub data Call : Type 0 where
  create : Watch → WatchRuntime → Call
  claim : String → String → String → ℕ → Bool → Call
  begin : WindowClaim → Call
  commit : WindowClaim → Watch → WatchRuntime → Call
  release : WindowClaim → Call
  cancel : String → Call
  expire : String → Option ℕ → Bool → Call

-- `creation none` is an error, and a commit answers with its status and event.
pub data Answer : Type 0 where
  creation : Option CreateResult → Answer
  claimed : ClaimResult → Answer
  permitted : BookingPermit → Answer
  committed : CommitStatus × Option String → Answer
  released : Bool → Answer
  ended : TransitionResult → Answer

module _ (sha1_hex : String → String) where
  unfoldable pub memory_call : Repo → ℕ × Call → Repo × Answer
  memory_call s (now, create w r) =
      let (s', x) = Repo.create_with_schedule s w r in (s', creation (some x))
  memory_call s (now, claim id window_id owner_id lease ignore_schedule) =
      let (s', x) = Repo.claim_window s id window_id owner_id lease ignore_schedule now in
      (s', claimed x)
  memory_call s (now, begin c) = let (s', x) = Repo.begin_booking s c now in (s', permitted x)
  memory_call s (now, commit c w r) =
      let (s', x) = Repo.commit_window sha1_hex s c w r now now in (s', committed (outcome x))
  memory_call s (now, release c) = let (s', x) = Repo.release_claim s c in (s', released x)
  memory_call s (now, cancel id) = let (s', x) = Repo.cancel_if_active s id now in (s', ended x)
  memory_call s (now, expire id expected force) =
      let (s', x) = Repo.expire_if_eligible sha1_hex s id expected force now in (s', ended x)

  unfoldable pub redis_call : Keyspace → ℕ × Call → Keyspace × Answer
  redis_call k (now, create w r) =
      let (k', x) = Methods.create_with_schedule k w r in (k', creation x)
  redis_call k (now, claim id window_id owner_id lease ignore_schedule) =
      let (k', x) = Methods.claim_window k id window_id owner_id lease ignore_schedule now in
      (k', claimed x)
  redis_call k (now, begin c) = let (k', x) = Methods.begin_booking k c now in (k', permitted x)
  redis_call k (now, commit c w r) =
      let (k', x) = Methods.commit_window sha1_hex k c w r now now in (k', committed (outcome x))
  redis_call k (now, release c) = let (k', x) = Methods.release_claim k c now in (k', released x)
  redis_call k (now, cancel id) =
      let (k', x) = Methods.cancel_if_active quiet (λ n. now) k id in (k', ended x)
  redis_call k (now, expire id expected force) =
      let (k', x) = Methods.expire_if_eligible sha1_hex quiet k id expected force now now in
      (k', ended x)

  unfoldable pub memory_run : Repo → List (ℕ × Call) → List Answer
  memory_run s [] = []
  memory_run s (o ∷ os) = let (s', x) = memory_call s o in x ∷ memory_run s' os

  unfoldable pub redis_run : Keyspace → List (ℕ × Call) → List Answer
  redis_run k [] = []
  redis_run k (o ∷ os) = let (k', x) = redis_call k o in x ∷ redis_run k' os

-- How the rest of the program calls a store that is in the state s: a new watch is active, a claim
-- is the store's own, a commit is of the claimed watch, a release finds no claim whose lease is
-- over, and instants and leases that a decision compares are whole milliseconds.
abbrev pub Allowed : Repo → ℕ × Call → Type 0
Allowed s (now, create w r) = (is_active w.status ≡ true) × DueWhole r.scheduled_for
Allowed s (now, claim id window_id owner_id lease ignore_schedule) = Whole now × Whole lease
Allowed s (now, begin c) = Whole now × Genuine (get s.runtimes c.watch.watch_id) c
Allowed s (now, commit c w r) =
    Whole now × ((w.watch_id ≡ c.watch.watch_id) × DueWhole r.scheduled_for)
Allowed s (now, release c) = Whole now × InTime (get s.claims c.watch.watch_id) now
Allowed s _ = Unit {0}

module _ (sha1_hex : String → String) where
  abbrev pub AllAllowed : Repo → List (ℕ × Call) → Type 0
  AllAllowed s [] = Unit {0}
  AllAllowed s (o ∷ os) = Allowed s o × AllAllowed (memory_call sha1_hex s o).0 os
