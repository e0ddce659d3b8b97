-- ===== src/Redis/Dispatch.antt =====
-- The dispatch leases of the Redis store, whose keys are per window, and the due markers.
use Prim.Native.Nat.{Ordering}
use Prim.Native.String.{compare}
use dibs_reservation_sniper.Prelude.{
  ltb, ◌&&◌, ◌||◌, ℕ, ◌+◌, String, Bool, true, false, not, Option, none, some, List, [], ◌∷◌, take,
  leb, ◌==◌, if◌then◌else◌, is_some, is_some_and, or_default,
}
use dibs_reservation_sniper.Dict.{Dict, get, put, pop}
use dibs_reservation_sniper.Model.{
  is_active, WatchRuntime, ScheduleMarker, DispatchStatus, DispatchClaim, DispatchResult,
}
use dibs_reservation_sniper.Repo.{window_is}
use dibs_reservation_sniper.Redis.State.{
  Keyspace, Held, to_ms, from_ms, is_live, holds, dispatch_key,
}

abbrev text_before : String → String → Bool
text_before i j = elim (compare i j) [ Ordering.lt ↦ true | _ ↦ false ]

pub data DispatchReply : Type 0 where
  refused : DispatchStatus → DispatchReply
  claimed : ℕ → ℕ → DispatchReply

-- The watch is active, its sidecar shows the window, and it has a score.
abbrev pub is_current : Keyspace → String → String → Bool
is_current k id window_id =
    if is_some_and (get k.documents id) (λ w. is_active w.status)
    then (if is_some_and (get k.runtimes id) (λ r. window_is r.window_id window_id)
        then is_some (get k.schedule id)
        else false)
    else false

grant_dispatch : Keyspace → String → String → String → ℕ → ℕ → Keyspace × DispatchReply
grant_dispatch k id key owner_id expires generation = (
  record k {
    dispatch_fences = put k.dispatch_fences id generation;
    dispatches =
        put k.dispatches key
          (record { owner = owner_id; token = generation; expires_ms = expires });
  },
  claimed generation expires,
)

unfoldable pub claim_dispatch_script :
    Keyspace → String → String → String → String → ℕ → ℕ → Keyspace × DispatchReply
unfolding grant_dispatch
claim_dispatch_script k id key window_id owner_id lease_ms now_ms =
    if not (is_current k id window_id)
    then (k, refused DispatchStatus.stale)
    else if is_live (get k.dispatches key) now_ms
    then (k, refused DispatchStatus.busy)
    else grant_dispatch k id key owner_id (now_ms + lease_ms)
        (or_default (get k.dispatch_fences id) 0 + 1)

mark_held : Keyspace → String → Option Held → String → ℕ → ℕ → ℕ → Keyspace × Bool
mark_held k key none owner_id generation redispatch_ms now_ms = (k, false)
mark_held k key (some h) owner_id generation redispatch_ms now_ms =
    if holds (some h) owner_id generation now_ms
    then (
      record k { dispatches = put k.dispatches key (record h { expires_ms = redispatch_ms }) },
      true,
    )
    else (k, false)

unfoldable pub mark_dispatched_script : Keyspace → String → String → ℕ → ℕ → ℕ → Keyspace × Bool
unfolding mark_held
mark_dispatched_script k key owner_id generation redispatch_ms now_ms =
    mark_held k key (get k.dispatches key) owner_id generation redispatch_ms now_ms

unfoldable pub release_dispatch_script : Keyspace → String → String → ℕ → ℕ → Keyspace × Bool
release_dispatch_script k key owner_id generation server_ms =
    if holds (get k.dispatches key) owner_id generation server_ms
    then (record k { dispatches = pop k.dispatches key }, true)
    else (k, false)

abbrev dispatch_result : ScheduleMarker → String → DispatchReply → DispatchResult
dispatch_result marker owner_id (refused status) = record { status = status; claim = none }
dispatch_result marker owner_id (claimed generation expires_ms) = record {
  status = DispatchStatus.claimed;
  claim = some (record {
    watch_id = marker.watch_id;
    window_id = marker.window_id;
    scheduled_for = marker.scheduled_for;
    owner_id = owner_id;
    generation = generation;
    lease_expires_at = from_ms expires_ms;
  });
}

module _ (dispatch_window_hash : String → String) where
  unfoldable pub claim_dispatch :
      Keyspace → ScheduleMarker → String → ℕ → ℕ → Keyspace × DispatchResult
  claim_dispatch k marker owner_id lease now =
      let key = dispatch_key dispatch_window_hash marker.watch_id marker.window_id in
      let (k', reply) =
        claim_dispatch_script k marker.watch_id key marker.window_id owner_id (to_ms lease)
          (to_ms now) in
      (k', dispatch_result marker owner_id reply)

  unfoldable pub mark_dispatched : Keyspace → DispatchClaim → ℕ → ℕ → Keyspace × Bool
  mark_dispatched k claim redispatch_after now =
      mark_dispatched_script k (dispatch_key dispatch_window_hash claim.watch_id claim.window_id)
        claim.owner_id claim.generation (to_ms redispatch_after) (to_ms now)

  unfoldable pub release_dispatch : Keyspace → DispatchClaim → ℕ → Keyspace × Bool
  release_dispatch k claim server_now =
      release_dispatch_script k (dispatch_key dispatch_window_hash claim.watch_id claim.window_id)
        claim.owner_id claim.generation (to_ms server_now)

marker_from : String → WatchRuntime → ℕ → Option ScheduleMarker
marker_from id r scheduled_for = elim r.window_id [
  | none ↦ none
  | some w ↦ some (record { watch_id = id; window_id = w; scheduled_for = scheduled_for })
]

unfoldable pub schedule_marker : Keyspace → String → Option ScheduleMarker
unfolding marker_from
schedule_marker k id = elim (get k.schedule id) [
  | none ↦ none
  | some score ↦ elim (get k.runtimes id) [
    | none ↦ none
    | some r ↦ marker_from id r (from_ms score)
  ]
]

-- A sorted set orders its members by score, and those of one score by their text.
abbrev before : String × ℕ → String × ℕ → Bool
before (i, a) (j, b) = ltb a b || (a == b && text_before i j)

zinsert : String × ℕ → Dict ℕ → Dict ℕ
zinsert e [] = e ∷ []
zinsert e (x ∷ d) = let rest = zinsert e d in if before e x then e ∷ x ∷ d else x ∷ rest

zsorted : Dict ℕ → Dict ℕ
unfolding zinsert
zsorted [] = []
zsorted (e ∷ d) = zinsert e (zsorted d)

-- ZRANGEBYSCORE up to a score
keep_due : ℕ → Dict ℕ → Dict ℕ
keep_due cutoff_ms [] = []
keep_due cutoff_ms ((id, score) ∷ d) =
    let rest = keep_due cutoff_ms d in if leb score cutoff_ms then (id, score) ∷ rest else rest

unfoldable pub due_members : Dict ℕ → ℕ → ℕ → Dict ℕ
unfolding keep_due zsorted
due_members d cutoff_ms limit = take limit (zsorted (keep_due cutoff_ms d))

-- A member with no window or no due time in its sidecar is skipped.
runtime_marker : String → Option WatchRuntime → Option ScheduleMarker
unfolding marker_from
runtime_marker id none = none
runtime_marker id (some r) = elim r.scheduled_for [ none ↦ none | some t ↦ marker_from id r t ]

markers_of : Keyspace → Dict ℕ → List ScheduleMarker
unfolding runtime_marker
markers_of k [] = []
markers_of k ((id, score) ∷ d) =
    let rest = markers_of k d in
    elim (runtime_marker id (get k.runtimes id)) [ none ↦ rest | some m ↦ m ∷ rest ]

unfoldable pub due_schedule_markers : Keyspace → ℕ → ℕ → ℕ → List ScheduleMarker
unfolding markers_of due_members
due_schedule_markers k now horizon limit =
    markers_of k (due_members k.schedule (to_ms (now + horizon)) limit)
