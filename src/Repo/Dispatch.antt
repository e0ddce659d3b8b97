-- ===== src/Repo/Dispatch.antt =====
-- The lease under which one dispatcher publishes a due window to the queue.
use dibs_reservation_sniper.Prelude.{
  ℕ, ◌+◌, String, Bool, true, false, not, ◌&&◌, Option, none, some, List, [], ◌∷◌, take, ◌==◌, ltb,
  leb, str_eq, if◌then◌else◌, is_some_and, or_default, sort_by,
}
use dibs_reservation_sniper.Dict.{Dict, get, put, pop}
use dibs_reservation_sniper.Model.{
  Watch, is_terminal, ScheduleMarker, DispatchStatus, DispatchClaim, DispatchResult,
}
use dibs_reservation_sniper.Repo.State.{Repo, DispatchLease}

keep_due : ℕ → Dict ScheduleMarker → List ScheduleMarker
keep_due cutoff [] = []
keep_due cutoff ((k, m) ∷ d) =
    let rest = keep_due cutoff d in if leb m.scheduled_for cutoff then m ∷ rest else rest

-- The earliest `limit` markers that are due within the horizon.
unfoldable pub due_schedule_markers : Repo → ℕ → ℕ → ℕ → List ScheduleMarker
unfolding keep_due
due_schedule_markers s now horizon limit =
    take limit (sort_by (λ m. m.scheduled_for) (keep_due (now + horizon) s.markers))

-- The watch is still polled, and its current marker is for the window that is to be published.
unfoldable pub marker_is_current : Option Watch → Option ScheduleMarker → String → Bool
marker_is_current watch current window_id =
    is_some_and watch (λ w. not (is_terminal w.status))
    && is_some_and current (λ m. str_eq m.window_id window_id)

unfoldable pub dispatch_held : Option DispatchLease → String → ℕ → Bool
dispatch_held lease window_id now =
    is_some_and lease (λ held. str_eq held.window_id window_id && ltb now held.expires_at)

grant_dispatch : Repo → ScheduleMarker → String → ℕ → ℕ → ℕ → Repo × DispatchResult
grant_dispatch s marker owner_id scheduled_for expires generation = (
  record s {
    dispatch_fence = put s.dispatch_fence marker.watch_id generation;
    dispatch_leases = put s.dispatch_leases marker.watch_id (record {
      window_id = marker.window_id;
      owner_id = owner_id;
      generation = generation;
      expires_at = expires;
    });
  },
  record {
    status = DispatchStatus.claimed;
    claim = some (record {
      watch_id = marker.watch_id;
      window_id = marker.window_id;
      scheduled_for = scheduled_for;
      owner_id = owner_id;
      generation = generation;
      lease_expires_at = expires;
    });
  },
)

refuse_dispatch : Repo → DispatchStatus → Repo × DispatchResult
refuse_dispatch s status = (s, record { status = status; claim = none })

abbrev scheduled_or : Option ScheduleMarker → ℕ → ℕ
scheduled_or none d = d
scheduled_or (some m) d = m.scheduled_for

unfoldable pub claim_dispatch : Repo → ScheduleMarker → String → ℕ → ℕ → Repo × DispatchResult
unfolding grant_dispatch refuse_dispatch
claim_dispatch s marker owner_id lease now =
    let id = marker.watch_id in
    let current = get s.markers id in
    if not (marker_is_current (get s.watches id) current marker.window_id)
    then refuse_dispatch s DispatchStatus.stale
    else if dispatch_held (get s.dispatch_leases id) marker.window_id now
    then refuse_dispatch s DispatchStatus.busy
    else grant_dispatch s marker owner_id (scheduled_or current now) (now + lease)
        (or_default (get s.dispatch_fence id) 0 + 1)

unfoldable pub owns_dispatch : DispatchClaim → DispatchLease → Bool
owns_dispatch claim held =
    held.generation == claim.generation && str_eq held.owner_id claim.owner_id

mark_held : Repo → DispatchClaim → Option DispatchLease → ℕ → Repo × Bool
mark_held s claim none redispatch_after = (s, false)
mark_held s claim (some held) redispatch_after =
    if owns_dispatch claim held
    then (
      record s {
        dispatch_leases =
            put s.dispatch_leases claim.watch_id (record held { expires_at = redispatch_after });
      },
      true,
    )
    else (s, false)

unfoldable pub mark_dispatched : Repo → DispatchClaim → ℕ → Repo × Bool
unfolding mark_held
mark_dispatched s claim redispatch_after =
    mark_held s claim (get s.dispatch_leases claim.watch_id) redispatch_after

unfoldable pub release_dispatch : Repo → DispatchClaim → Repo × Bool
release_dispatch s claim =
    if is_some_and (get s.dispatch_leases claim.watch_id) (owns_dispatch claim)
    then (record s { dispatch_leases = pop s.dispatch_leases claim.watch_id }, true)
    else (s, false)
