-- ===== src/Redis/Methods.antt =====
-- The repository's methods of a watch's life: what each computes around its script. A claim that a
-- method is given was returned by the store, and a reply's JSON is what an earlier method stored.
use dibs_reservation_sniper.Prelude.{
  ℕ, zero, suc, ◌+◌, String, Bool, true, false, not, ◌&&◌, Option, none, some, if◌then◌else◌,
  str_eq,
}
use dibs_reservation_sniper.Dict.{get}
use dibs_reservation_sniper.Text.{numbered}
use dibs_reservation_sniper.Model.{
  WatchStatus, Watch, is_terminal, is_exhausted, WatchRuntime, RuntimePhase, CreateStatus,
  CreateResult, ClaimStatus, ClaimResult, WindowClaim, BookingPermitStatus, BookingPermit,
  CommitStatus, CommitResult, TransitionStatus, TransitionResult,
}
use dibs_reservation_sniper.Repo.{
  is_event_status, terminal_event_id, finish_as, closed_runtime, next_revision, in_booking,
  committed_runtime, revision_moved, deny_permit, refuse_claim, refuse,
}
use dibs_reservation_sniper.Redis.State.{Keyspace, to_ms, from_ms}
use dibs_reservation_sniper.Redis.Scripts.{
  CreateReply, ClaimReply, TransitionReply, CancelMode, create_script, claim_script, begin_script,
  commit_script, release_script, cancel_script, expire_script,
}

-- The key names the watch: a document of another watch reads as none.
abbrev decode : String → Option Watch → Option Watch
decode id none = none
decode id (some w) = if str_eq w.watch_id id then some w else none

unfoldable pub get_watch : Keyspace → String → Option Watch
get_watch k id = decode id (get k.documents id)

-- The score of a sidecar whose window is set and due at an instant.
abbrev pub scheduled_ms : WatchRuntime → Option ℕ
scheduled_ms r = elim r.window_id [
  | none ↦ none
  | some w ↦ elim r.scheduled_for [ none ↦ none | some t ↦ some (to_ms t) ]
]

-- `none` is the error that a reply without a sidecar raises.
abbrev created_result : Watch → WatchRuntime → CreateReply → Option CreateResult
created_result watch runtime CreateReply.created =
    some (record { status = CreateStatus.created; watch = some watch; runtime = some runtime })
created_result watch runtime (CreateReply.already_exists old none) = none
created_result watch runtime (CreateReply.already_exists old (some r)) =
    some (record { status = CreateStatus.already_exists; watch = some old; runtime = some r })

unfoldable pub create_with_schedule :
    Keyspace → Watch → WatchRuntime → Keyspace × Option CreateResult
create_with_schedule k watch runtime =
    let (k', reply) = create_script k watch.watch_id watch runtime (scheduled_ms runtime) in
    (k', created_result watch runtime reply)

abbrev claim_result : String → String → ClaimReply → ClaimResult
claim_result window_id owner_id (ClaimReply.refused status) = refuse_claim status
claim_result window_id owner_id (ClaimReply.owned w r token expires_ms) = record {
  status = ClaimStatus.owned;
  claim = some (record {
    watch = w;
    runtime = r;
    owner_id = owner_id;
    window_id = window_id;
    token = token;
    lease_expires_at = from_ms expires_ms;
  });
}

unfoldable pub claim_window :
    Keyspace → String → String → String → ℕ → Bool → ℕ → Keyspace × ClaimResult
claim_window k id window_id owner_id lease ignore_schedule now =
    let (k', reply) =
      claim_script k id window_id owner_id (to_ms lease) (to_ms now) ignore_schedule in
    (k', claim_result window_id owner_id reply)

abbrev permit_result : WindowClaim → BookingPermitStatus → BookingPermit
permit_result claim BookingPermitStatus.granted = record {
  status = BookingPermitStatus.granted;
  permit_id = some (numbered claim.watch.watch_id claim.token);
}
permit_result claim status = deny_permit status

unfoldable pub begin_booking : Keyspace → WindowClaim → ℕ → Keyspace × BookingPermit
begin_booking k claim now =
    let booking = record claim.runtime { phase = some RuntimePhase.booking } in
    let (k', status) =
      begin_script k claim.watch.watch_id claim.runtime.revision claim.token claim.owner_id booking
        (to_ms now) in
    (k', permit_result claim status)

unfoldable pub release_claim : Keyspace → WindowClaim → ℕ → Keyspace × Bool
release_claim k claim server_now =
    release_script k claim.watch.watch_id claim.owner_id claim.token (to_ms server_now)

abbrev committed_result : Watch → CommitStatus → Option String → CommitResult
committed_result watch CommitStatus.committed event_id = record {
  status = CommitStatus.committed;
  watch = some watch;
  event_id = event_id;
}
committed_result watch status event_id = record { status = status; watch = none; event_id = none }

abbrev pending_runtime : WatchRuntime → WatchRuntime
pending_runtime r = record r { cancel_requested = true }

abbrev revision_of : Option WatchRuntime → Option ℕ
revision_of none = none
revision_of (some r) = some r.revision

abbrev closed : Option WatchRuntime → ℕ → Option WatchRuntime
closed none deadline = none
closed (some r) deadline = some (closed_runtime r deadline)

-- What the script is asked to do, from the watch and the sidecar that were read.
unfoldable pub cancel_mode : Keyspace → Watch → Option WatchRuntime → ℕ → CancelMode
cancel_mode k watch runtime now =
    let full =
      CancelMode.cancel (finish_as WatchStatus.cancelled watch now)
        (closed runtime (now + k.retention)) (some (to_ms (now + k.retention))) in
    elim runtime [
      | none ↦ full
      | some r ↦ if in_booking r then CancelMode.pending (pending_runtime r) else full
    ]

abbrev applied_result : Watch → Option String → ℕ → TransitionResult
applied_result watch event_id revision = record {
  status = TransitionStatus.applied;
  watch = some watch;
  event_id = event_id;
  revision = some revision;
}

-- `none` is a fenced attempt, after which the method reads again.
abbrev pub cancelled_result :
    Watch → Option WatchRuntime → TransitionReply → Option TransitionResult
cancelled_result watch runtime TransitionReply.fenced = none
cancelled_result watch runtime TransitionReply.unknown = some (refuse TransitionStatus.unknown none)
cancelled_result watch runtime (TransitionReply.noop w) =
    some (refuse TransitionStatus.noop (some w))
cancelled_result watch runtime (TransitionReply.not_eligible w) =
    some (refuse TransitionStatus.not_eligible (some watch))
cancelled_result watch runtime (TransitionReply.applied w) =
    some (applied_result w none (next_revision runtime))

abbrev answered {ℓ} :
    {A : Type ℓ} → (TransitionReply → A) → Keyspace × TransitionReply → Keyspace × A
answered f (k, reply) = (k, f reply)

abbrev pub retry :
    Keyspace × Option TransitionResult
    → (Keyspace → Keyspace × TransitionResult)
    → Keyspace × TransitionResult
retry (k, none) again = again k
retry (k, some r) again = (k, r)

abbrev expired_result : String → ℕ → TransitionReply → TransitionResult
expired_result event_id revision TransitionReply.fenced = refuse TransitionStatus.fenced none
expired_result event_id revision TransitionReply.unknown = refuse TransitionStatus.unknown none
expired_result event_id revision (TransitionReply.noop w) = refuse TransitionStatus.noop (some w)
expired_result event_id revision (TransitionReply.not_eligible w) =
    refuse TransitionStatus.unknown none
expired_result event_id revision (TransitionReply.applied w) =
    applied_result w (some event_id) revision

-- A method that takes several round trips meets what other clients did in between: `meanwhile n`
-- is the change before its round trip n + 1. `clock` is the reading at a round trip.
module _ (meanwhile : ℕ → Keyspace → Keyspace) (clock : ℕ → ℕ) where
  -- One attempt, whose round trips are numbered from n: two reads, then the script.
  unfoldable pub cancel_attempt : Keyspace → String → ℕ → Keyspace × Option TransitionResult
  unfolding get_watch cancel_mode
  cancel_attempt k id n = elim (get_watch k id) [
    | none ↦ (k, some (refuse TransitionStatus.unknown none))
    | some watch ↦
        if is_terminal watch.status
        then (k, some (refuse TransitionStatus.noop (some watch)))
        else let k1 = meanwhile n k in
          let runtime = get k1.runtimes id in
          let k2 = meanwhile (n + 1) k1 in
          answered (cancelled_result watch runtime)
            (cancel_script k2 id (revision_of runtime) (cancel_mode k1 watch runtime (clock n)))
  ]

  -- The attempts that are left when the next round trip is the n-th.
  cancel_attempts : ℕ → Keyspace → String → ℕ → Keyspace × TransitionResult
  unfolding cancel_attempt
  cancel_attempts zero k id n = (k, refuse TransitionStatus.fenced none)
  cancel_attempts (suc left) k id n =
      retry (cancel_attempt k id n) (λ k'. cancel_attempts left (meanwhile (n + 2) k') id (n + 3))

  unfoldable pub cancel_if_active : Keyspace → String → Keyspace × TransitionResult
  unfolding cancel_attempts
  cancel_if_active k id = cancel_attempts 5 k id 0

module _ (sha1_hex : String → String) where
  abbrev commit_event : String → WatchStatus → ℕ → Option String
  commit_event id status revision =
      if is_terminal status && is_event_status status
      then some (terminal_event_id sha1_hex id status revision)
      else none

  abbrev stored_runtime : WatchRuntime → ℕ → Bool → ℕ → WatchRuntime
  stored_runtime r revision true deadline = record (committed_runtime r revision) {
    terminal_delete_at = some deadline;
  }
  stored_runtime r revision false deadline = committed_runtime r revision

  -- The clock is read for the retention deadline (`first`) and then for the lease (`now`).
  unfoldable pub commit_window :
      Keyspace → WindowClaim → Watch → WatchRuntime → ℕ → ℕ → Keyspace × CommitResult
  commit_window k claim new_watch new_runtime first now =
      let id = claim.watch.watch_id in
      let terminal = is_terminal new_watch.status in
      let deadline = first + k.retention in
      let revision = claim.runtime.revision + 1 in
      let stored = stored_runtime new_runtime revision terminal deadline in
      let next_ms = if terminal then none else scheduled_ms stored in
      let delete_ms = if terminal then some (to_ms deadline) else none in
      let (k', status, event_id) =
        commit_script k id claim.runtime.revision claim.token claim.owner_id new_watch stored
          terminal next_ms delete_ms (commit_event id new_watch.status revision) (to_ms now) in
      (k', committed_result new_watch status event_id)

  module _ (meanwhile : ℕ → Keyspace → Keyspace) where
    expire_active :
        Keyspace
        → String
        → Option ℕ
        → Bool
        → Watch
        → Option WatchRuntime
        → ℕ
        → ℕ
        → Keyspace × TransitionResult
    expire_active k id expected force watch runtime now later =
        if revision_moved expected runtime
        then (k, refuse TransitionStatus.fenced none)
        else if not force && not (is_exhausted watch now)
        then (k, refuse TransitionStatus.not_eligible (some watch))
        else let revision = next_revision runtime in
          let deadline = later + k.retention in
          let event_id = terminal_event_id sha1_hex id WatchStatus.expired revision in
          answered (expired_result event_id revision) (
            expire_script (meanwhile 1 k) id (revision_of runtime)
              (finish_as WatchStatus.expired watch later) (closed runtime deadline) (some event_id)
              (some (to_ms deadline)))

    -- The clock is read for the eligibility (`now`) and once more for the transition (`later`).
    unfoldable pub expire_if_eligible :
        Keyspace → String → Option ℕ → Bool → ℕ → ℕ → Keyspace × TransitionResult
    unfolding expire_active get_watch
    expire_if_eligible k id expected force now later = elim (get_watch k id) [
      | none ↦ (k, refuse TransitionStatus.unknown none)
      | some watch ↦
          if is_terminal watch.status
          then (k, refuse TransitionStatus.noop (some watch))
          else let k1 = meanwhile 0 k in
            expire_active k1 id expected force watch (get k1.runtimes id) now later
    ]
