-- ===== src/Redis/Scripts.antt =====
-- The Lua scripts of backend/db/repositories/watch_scripts.py that move one watch through its life.
-- A script runs alone on the server, so it is a function from the keyspace to the keyspace and a
-- reply; an argument that may be the empty text is an option.
use dibs_reservation_sniper.Prelude.{
  ℕ, ◌+◌, String, Bool, true, false, not, ◌&&◌, Option, none, some, List, ◌==◌, ltb, if◌then◌else◌,
  is_some_and, or_default,
}
use dibs_reservation_sniper.Dict.{Dict, get, put, pop}
use dibs_reservation_sniper.Model.{
  Watch, is_terminal, WatchRuntime, ClaimStatus, BookingPermitStatus, CommitStatus,
}
use dibs_reservation_sniper.Repo.{add_event, window_is}
use dibs_reservation_sniper.Redis.State.{Keyspace, srem, is_live, holds}

pub data CreateReply : Type 0 where
  created : CreateReply
  already_exists : Watch → Option WatchRuntime → CreateReply

-- ZADD where the score is not the empty text
abbrev pub zadd : Dict ℕ → String → Option ℕ → Dict ℕ
zadd d id none = d
zadd d id (some score) = put d id score

unfoldable pub create_script :
    Keyspace → String → Watch → WatchRuntime → Option ℕ → Keyspace × CreateReply
create_script k id watch runtime scheduled_ms = elim (get k.documents id) [
  | some old ↦ (k, already_exists old (get k.runtimes id))
  | none ↦ (
    record k {
      documents = put k.documents id watch;
      runtimes = put k.runtimes id runtime;
      fences = put k.fences id 0;
      all_index = add_event id k.all_index;
      active_index = add_event id k.active_index;
      schedule = zadd k.schedule id scheduled_ms;
    },
    created,
  )
]

pub data ClaimReply : Type 0 where
  refused : ClaimStatus → ClaimReply
  owned : Watch → WatchRuntime → ℕ → ℕ → ClaimReply

-- `SET ... PX`: the key also expires natively with the lease.
grant_script : Keyspace → Watch → WatchRuntime → String → String → ℕ → ℕ → Keyspace × ClaimReply
grant_script k w r id owner_id expires token = (
  record k {
    fences = put k.fences id token;
    claims = put k.claims id (record { owner = owner_id; token = token; expires_ms = expires });
  },
  owned w r token expires,
)

claim_active :
    Keyspace
    → Watch
    → WatchRuntime
    → String
    → String
    → String
    → ℕ
    → ℕ
    → Bool
    → Keyspace × ClaimReply
unfolding grant_script
claim_active k w r id window_id owner_id lease_ms now_ms ignore_schedule =
    if not (window_is r.window_id window_id)
    then (k, refused ClaimStatus.stale)
    else if not ignore_schedule && is_some_and (get k.schedule id) (λ due. ltb now_ms due)
    then (k, refused ClaimStatus.early)
    else if is_live (get k.claims id) now_ms
    then (k, refused ClaimStatus.busy)
    else grant_script k w r id owner_id (now_ms + lease_ms) (or_default (get k.fences id) 0 + 1)

unfoldable pub claim_script :
    Keyspace → String → String → String → ℕ → ℕ → Bool → Keyspace × ClaimReply
unfolding claim_active
claim_script k id window_id owner_id lease_ms now_ms ignore_schedule = elim (get k.documents id) [
  | none ↦ (k, refused ClaimStatus.unknown)
  | some w ↦
      if is_terminal w.status then (k, refused ClaimStatus.terminal) else elim (get k.runtimes id) [
        | none ↦ (k, refused ClaimStatus.unknown)
        | some r ↦ claim_active k w r id window_id owner_id lease_ms now_ms ignore_schedule
      ]
]

-- Whether the transition's expected revision is the stored one and its claim is still held.
abbrev pub passes : Keyspace → String → WatchRuntime → ℕ → ℕ → String → ℕ → Bool
passes k id r revision token owner_id now_ms =
    r.revision == revision && holds (get k.claims id) owner_id token now_ms

unfoldable pub begin_script :
    Keyspace → String → ℕ → ℕ → String → WatchRuntime → ℕ → Keyspace × BookingPermitStatus
begin_script k id revision token owner_id booking_runtime now_ms = elim (get k.documents id) [
  | none ↦ (k, BookingPermitStatus.fenced)
  | some w ↦
      if is_terminal w.status then (k, BookingPermitStatus.fenced) else elim (get k.runtimes id) [
        | none ↦ (k, BookingPermitStatus.fenced)
        | some r ↦
            if not (passes k id r revision token owner_id now_ms)
            then (k, BookingPermitStatus.fenced)
            else if r.cancel_requested
            then (k, BookingPermitStatus.cancelled)
            else (
              record k { runtimes = put k.runtimes id booking_runtime },
              BookingPermitStatus.granted,
            )
      ]
]

abbrev pub sadd_some : Option String → List String → List String
sadd_some none xs = xs
sadd_some (some e) xs = add_event e xs

-- ZADD or ZREM of the next due time
abbrev pub reschedule : Dict ℕ → String → Option ℕ → Dict ℕ
reschedule d id none = pop d id
reschedule d id (some score) = put d id score

commit_stored :
    Keyspace → String → Watch → WatchRuntime → Bool → Option ℕ → Option ℕ → Option String → Keyspace
commit_stored k id watch runtime true next_ms delete_ms event_id = record k {
  documents = put k.documents id watch;
  runtimes = put k.runtimes id runtime;
  claims = pop k.claims id;
  active_index = srem k.active_index id;
  schedule = pop k.schedule id;
  terminal = zadd k.terminal id delete_ms;
  events = sadd_some event_id k.events;
}
commit_stored k id watch runtime false next_ms delete_ms event_id = record k {
  documents = put k.documents id watch;
  runtimes = put k.runtimes id runtime;
  claims = pop k.claims id;
  schedule = reschedule k.schedule id next_ms;
}

abbrev event_of : Bool → Option String → Option String
event_of true event_id = event_id
event_of false event_id = none

unfoldable pub commit_script :
    Keyspace
    → String
    → ℕ
    → ℕ
    → String
    → Watch
    → WatchRuntime
    → Bool
    → Option ℕ
    → Option ℕ
    → Option String
    → ℕ
    → Keyspace × CommitStatus × Option String
unfolding commit_stored
commit_script k id revision token owner_id watch runtime terminal next_ms delete_ms event_id
      now_ms =
    elim (get k.documents id) [
      | none ↦ (k, CommitStatus.unknown, none)
      | some w ↦
          if is_terminal w.status
          then (k, CommitStatus.terminal, none)
          else elim (get k.runtimes id) [
            | none ↦ (k, CommitStatus.unknown, none)
            | some r ↦
                if not (passes k id r revision token owner_id now_ms)
                then (k, CommitStatus.fenced, none)
                else (
                  commit_stored k id watch runtime terminal next_ms delete_ms event_id,
                  CommitStatus.committed,
                  event_of terminal event_id,
                )
          ]
    ]

-- The key is gone once its lease is over, so a late release finds nothing.
unfoldable pub release_script : Keyspace → String → String → ℕ → ℕ → Keyspace × Bool
release_script k id owner_id token server_ms =
    if holds (get k.claims id) owner_id token server_ms
    then (record k { claims = pop k.claims id }, true)
    else (k, false)

pub data TransitionReply : Type 0 where
  unknown fenced : TransitionReply
  noop not_eligible applied : Watch → TransitionReply

-- A revision is compared only where there is a sidecar and the caller gave one.
abbrev pub moved : Option ℕ → Option WatchRuntime → Bool
moved expected runtime =
    is_some_and expected (λ e. is_some_and runtime (λ r. not (r.revision == e)))

-- A sidecar replaces the stored one only where there is one; the empty text reads as no sidecar.
abbrev pub set_runtime :
    Dict WatchRuntime → String → Option WatchRuntime → Option WatchRuntime → Dict WatchRuntime
set_runtime d id none new = d
set_runtime d id (some old) none = pop d id
set_runtime d id (some old) (some new) = put d id new

-- What `CANCEL_IF_ACTIVE` and `EXPIRE_IF_ELIGIBLE` both do to the keys of a watch that ends.
abbrev end_watch :
    Keyspace → String → Watch → Option WatchRuntime → Option WatchRuntime → Option ℕ → Keyspace
end_watch k id watch stored runtime delete_ms = record k {
  documents = put k.documents id watch;
  runtimes = set_runtime k.runtimes id stored runtime;
  claims = pop k.claims id;
  active_index = srem k.active_index id;
  schedule = pop k.schedule id;
  terminal = zadd k.terminal id delete_ms;
}

-- The two modes of the cancellation script, with their arguments.
pub data CancelMode : Type 0 where
  pending : WatchRuntime → CancelMode
  cancel : Watch → Option WatchRuntime → Option ℕ → CancelMode

cancel_active :
    Keyspace → String → Watch → Option WatchRuntime → CancelMode → Keyspace × TransitionReply
cancel_active k id w stored (pending runtime) =
    (record k { runtimes = set_runtime k.runtimes id stored (some runtime) }, not_eligible w)
cancel_active k id w stored (cancel watch runtime delete_ms) =
    (end_watch k id watch stored runtime delete_ms, applied watch)

unfoldable pub cancel_script :
    Keyspace → String → Option ℕ → CancelMode → Keyspace × TransitionReply
unfolding cancel_active
cancel_script k id cas_revision mode = elim (get k.documents id) [
  | none ↦ (k, unknown)
  | some w ↦
      if is_terminal w.status
      then (k, noop w)
      else if moved cas_revision (get k.runtimes id)
      then (k, fenced)
      else cancel_active k id w (get k.runtimes id) mode
]

unfoldable pub expire_script :
    Keyspace
    → String
    → Option ℕ
    → Watch
    → Option WatchRuntime
    → Option String
    → Option ℕ
    → Keyspace × TransitionReply
expire_script k id cas_revision watch runtime event_id delete_ms = elim (get k.documents id) [
  | none ↦ (k, unknown)
  | some w ↦
      if is_terminal w.status
      then (k, noop w)
      else if moved cas_revision (get k.runtimes id)
      then (k, fenced)
      else (
        record (end_watch k id watch (get k.runtimes id) runtime delete_ms) {
          events = sadd_some event_id k.events;
        },
        applied watch,
      )
]
